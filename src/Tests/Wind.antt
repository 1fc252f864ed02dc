-- ===== src/Tests/Wind.antt =====
-- The payload of a MeteoWind.
use meteodata_server.Base.{false}
use meteodata_server.Base.Int.{pos, negsuc}
use meteodata_server.Liveobjects.Wind.{missing}
use meteodata_server.Liveobjects.BaraniAnemometer2026 as Anemometer
use meteodata_server.Liveobjects.BaraniAnemometer2026.Fields.{Fields}

abbrev fields : Fields
fields = record {
  index = 27;
  battery = 1;
  avg = 320;
  gust_3s = 20;
  gust_1s = 255;
  minimum = 0;
  stdev = 4;
  direction = 350;
  gust_direction = 511;
  direction_stdev = 12;
  ccw = 300;
  cw = 511;
  time = 60;
  alarm = 1;
  debug = 3;
}

abbrev no_wind : Anemometer.DataPoint
no_wind = record {
  valid = false;
  index = 0;
  time = pos 0;
  battery_voltage = pos 33;
  wind_avg_10min_speed = missing;
  wind_3s_gust_speed = missing;
  wind_1s_gust_speed = missing;
  wind_3s_min_speed = missing;
  wind_speed_stdev = missing;
  wind_avg_10min_direction = negsuc 0;
  wind_1s_gust_direction = negsuc 0;
  wind_direction_stdev = negsuc 0;
  dir_ccw_min = negsuc 0;
  dir_cw_max = negsuc 0;
  max_wind_datetime = pos 0;
  alarm_sent = false;
  debug_flags = 0;
}
