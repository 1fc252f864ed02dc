-- ===== src/Tests/Sensors.antt =====
-- The payloads of the OY1110 and of the MeteoHelix.
use meteodata_server.Base.{◌≡◌, true, false, none, some, [], ◌∷◌, arith, Bytes}
use meteodata_server.Base.Int.{pos, negsuc, ◌-ℤ◌}
use meteodata_server.Liveobjects.Oy1110 as Oy1110
use meteodata_server.Liveobjects.Oy1110.Packets.{packet, ingest-packet}
use meteodata_server.Liveobjects.BaraniThermohygro as Helix
use meteodata_server.Liveobjects.BaraniThermohygro.Fields.{Fields}

abbrev no_measure : Oy1110.DataPoint
no_measure = record {
  valid = false;
  basetime = pos 0;
  offset = 0;
  temperatures = [];
  humidities = [];
}

-- A header, then a packet.
abbrev grouped : Bytes
grouped = b'0' ∷ b'A' ∷ packet 1000 720

ingest-packet_example :
    Oy1110.ingest 1 (packet 1000 720) (pos 60) no_measure
    ≡ some (record no_measure {
      valid = true;
      basetime = pos 60;
      temperatures = pos 200 ∷ [];
      humidities = pos 470 ∷ [];
    })
unfolding ◌-ℤ◌
ingest-packet_example = ingest-packet 0 1000 720 (pos 60) no_measure (omega arith) (omega arith)

abbrev fields : Fields
fields = record {
  kind = 1;
  battery = 20;
  temperature = 1155;
  minimum = 3;
  maximum = 63;
  humidity = 511;
  pressure = 10200;
  radiation = 300;
  max_radiation = 12;
  clicks = 17;
  time = 90;
}

abbrev helix : Helix.DataPoint
helix = record {
  valid = false;
  message_type = negsuc 0;
  time = pos 0;
  battery_voltage = none;
  temperature = none;
  min_temperature = none;
  max_temperature = none;
  humidity = none;
  pressure = none;
  radiation = none;
  max_radiation = none;
  rainfall_clicks = 0;
  rainfall = none;
  min_time_between_clicks = 0;
}

abbrev db : Helix.Lookup
db = record { now = pos 1700000100; cached_clicks = some (pos 1700000000, pos 250) }
