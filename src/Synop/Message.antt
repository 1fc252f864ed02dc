-- ===== src/Synop/Message.antt =====
-- What a SYNOP message is decoded into (src/synop/synop_decoder/synop_message.h and the headers it
-- includes). An enumeration whose values are characters is kept as the character; an amount of
-- precipitation is in tenths of millimetres, and a visibility in metres.
use meteodata_server.Base.{ℕ, Bool, List, Option, Bytes}
use meteodata_server.Base.Int.{ℤ}

pub data WindSpeedUnit : Type 0 where
  meters_per_second knots : WindSpeedUnit

pub data PhenomenaObservationsAvailable : Type 0 where
  basic_observations advanced_observations no_phenomenon not_observed not_available :
      PhenomenaObservationsAvailable

-- Range<int> and Range<float>.
pub record Range : Type 0 where
  pub begin : Option ℤ
  pub end : Option ℤ
  pub begin_included : Bool
  pub end_included : Bool

pub record IsobaricSurfacePotential : Type 0 where
  pub standard_isobaric_surface : ℕ
  pub geopotential : ℤ

pub record PressureTendency : Type 0 where
  pub description : ℕ
  pub amount : ℤ

pub record PrecipitationAmount : Type 0 where
  pub amount : ℤ
  pub trace : Bool
  pub duration : ℤ

pub record GustObservation : Type 0 where
  pub speed : ℤ
  pub duration : ℤ

pub record EvapoMaybeTranspiRation : Type 0 where
  pub instrumentation : ℕ
  pub amount : ℤ

pub data SnowCoverageCondition : Type 0 where
  no_snow cover_more_than_5_mm cover_less_than_5_mm discontinuous_cover not_measured :
      SnowCoverageCondition

pub record SnowDepth : Type 0 where
  pub depth : ℤ
  pub cover : SnowCoverageCondition

pub record CloudObservation : Type 0 where
  pub genus : ℕ
  pub direction : ℕ
  pub distance : Range
  pub nebulosity : ℕ

pub record CloudElevation : Type 0 where
  pub genus : ℕ
  pub direction : ℕ
  pub angle : ℕ

-- The radiations of one period, the last hour or the last 24 hours.
pub record Radiations : Type 0 where
  pub net_short_wave : Option ℤ
  pub direct_solar : Option ℤ
  pub net : Option ℤ
  pub global_solar : Option ℤ
  pub diffused_solar : Option ℤ
  pub downward_long_wave : Option ℤ
  pub upward_long_wave : Option ℤ
  pub short_wave : Option ℤ

pub record SynopMessage : Type 0 where
  pub station_icao : Bytes
  pub with_anemometer : Bool
  pub wind_speed_unit : WindSpeedUnit
  pub observation_time : ℤ
  pub manned : Bool
  pub phenomena : PhenomenaObservationsAvailable
  pub sections : List Bool
  pub h_base_lowest_cloud : Option Range
  pub horiz_visibility : Option Range
  pub cloud_cover : Option ℕ
  pub mean_wind_direction : Option ℤ
  pub mean_wind_speed : Option ℤ
  pub mean_temperature : Option ℤ
  pub dew_point : Option ℤ
  pub relative_humidity : Option ℤ
  pub pressure_at_station : Option ℤ
  pub pressure_at_sea_level : Option ℤ
  pub isobaric_surface_potential : Option IsobaricSurfacePotential
  pub pressure_tendency : Option PressureTendency
  pub precipitation : List PrecipitationAmount
  pub low_or_medium_cloud_cover : Option ℕ
  pub low_clouds : Option ℕ
  pub medium_clouds : Option ℕ
  pub high_clouds : Option ℕ
  pub max_temperature : Option ℤ
  pub min_temperature : Option ℤ
  pub ground_state_without_snow_or_ice : Option ℕ
  pub min_soil_temperature : Option ℤ
  pub ground_state_with_snow_or_ice : Option ℕ
  pub snow_depth : Option SnowDepth
  pub gust_observations : List GustObservation
  pub evapo_maybe_transpi_ration : Option EvapoMaybeTranspiRation
  pub minutes_of_sunshine_last_day : Option ℤ
  pub minutes_of_sunshine_last_hour : Option ℤ
  pub last_hour : Radiations
  pub last_24_hours : Radiations
  pub clouds : List CloudElevation
  pub low_clouds_drift : Option ℕ
  pub medium_clouds_drift : Option ℕ
  pub high_clouds_drift : Option ℕ
  pub height_of_base_of_clouds : List CloudObservation
