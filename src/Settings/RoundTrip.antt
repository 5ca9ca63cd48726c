-- ===== src/Settings/RoundTrip.antt =====
-- What is written to the settings is what is read from them.
use Prim.Native.String.{String}
use location_service.Base.{◌≡◌, refl, some}
use location_service.Engine.State.{Status, SatelliteState, ReportingState}
use location_service.Settings.{
  ServiceState, parse, status_text, satellite_text, reporting_text, service_state_text,
}

-- Each of the four enumerations is read back from what is printed.
pub parse-print :
    (s : Status) (p : SatelliteState) (r : ReportingState) (v : ServiceState)
    → (parse status_text (status_text.print s) ≡ some s)
      × (parse satellite_text (satellite_text.print p) ≡ some p)
      × (parse reporting_text (reporting_text.print r) ≡ some r)
      × (parse service_state_text (service_state_text.print v) ≡ some v)
unfolding parse
parse-print s p r v = (status s, satellite p, reporting r, service v)
  where
    status : (s : Status) → parse status_text (status_text.print s) ≡ some s
    status Status.off = refl
    status Status.on = refl
    status Status.active = refl

    satellite : (s : SatelliteState) → parse satellite_text (satellite_text.print s) ≡ some s
    satellite SatelliteState.off = refl
    satellite SatelliteState.on = refl

    reporting : (s : ReportingState) → parse reporting_text (reporting_text.print s) ≡ some s
    reporting ReportingState.off = refl
    reporting ReportingState.on = refl

    service : (s : ServiceState) → parse service_state_text (service_state_text.print s) ≡ some s
    service ServiceState.disabled = refl
    service ServiceState.enabled = refl
    service ServiceState.active = refl
