-- ===== src/Gps/Modes.antt =====
-- The modes that the driver was told, and those that the layer has.
use location_service.Base.{
  ◌≡◌, refl, Bool, false, Option, none, some, List, [], ◌∷◌, if◌then◌else◌, arith,
}
use location_service.Gps.{
  AssistanceMode, PositionMode, periodic, single_shot, Command, start, stop, set_mode,
  inject_location, inject_time, inject_xtra_data, delete_aiding_data, Hal, Callback,
  on_location_update, on_status_update, on_sv_status_update, on_set_capabilities,
  on_agps_status_update, on_request_utc_time, on_xtra_download_request, Function, start_positioning,
  stop_positioning, set_assistance_mode, set_position_mode, inject_reference_position,
  inject_reference_time, delete_all_aiding_data, is_capable_of_assistance, is_capable_of_position,
  location_updated, dispatch_updated_modes_to_driver, construct, call, called_back,
}

-- What happens to the layer.
pub data Event (F Q : Type 0) : Type 0 where
  asked : Function Q → Event F Q
  reported : Callback F Q → Event F Q

-- The modes of the newest command that sets them.
unfoldable pub told : {Q : Type 0} → List (Command Q) → Option (AssistanceMode × PositionMode)
told [] = none
told (set_mode a p interval accuracy ttff ∷ rest) = some (a, p)
told (start ∷ rest) = told rest
told (stop ∷ rest) = told rest
told (inject_location lat lon accuracy ∷ rest) = told rest
told (inject_time epoch boot uncertainty ∷ rest) = told rest
told (inject_xtra_data bytes ∷ rest) = told rest
told (delete_aiding_data flags ∷ rest) = told rest

module _ {F Q : Type 0} (answer : List (Command Q) → Bool) where
  unfoldable pub step : Event F Q → Hal F Q → Hal F Q
  unfolding call called_back
  step (asked f) h = (call answer f h).1
  step (reported c) h = called_back answer c h

  unfoldable pub run : List (Event F Q) → Hal F Q → Hal F Q
  unfolding step
  run [] h = h
  run (e ∷ es) h = run es (step e h)

  unfoldable pub IsTold : Hal F Q → Type 0
  unfolding told
  IsTold h = told h.commands ≡ some (h.assistance_mode, h.position_mode)

  call-IsTold : (f : Function Q) (h : Hal F Q) → IsTold h → IsTold (call answer f h).1
  unfolding call IsTold told dispatch_updated_modes_to_driver is_capable_of_assistance
  call-IsTold start_positioning h t = t
  call-IsTold stop_positioning h t = t
  call-IsTold (set_assistance_mode m) h t = ground arith
  call-IsTold (set_position_mode single_shot) h t = ground arith
  call-IsTold (set_position_mode periodic) h t = ground arith
  call-IsTold (inject_reference_position p) h t = t
  call-IsTold (inject_reference_time s) h t = ground arith
  call-IsTold delete_all_aiding_data h t = t

  called_back-IsTold : (c : Callback F Q) (h : Hal F Q) → IsTold h → IsTold (called_back answer c h)
  unfolding called_back IsTold told location_updated
  called_back-IsTold (on_location_update l) h t = ground arith
  called_back-IsTold (on_status_update n) h t = t
  called_back-IsTold (on_sv_status_update svs) h t = t
  called_back-IsTold (on_set_capabilities c) h t = t
  called_back-IsTold (on_agps_status_update c2k n ip) h t = ground arith
  called_back-IsTold (on_request_utc_time none) h t = t
  called_back-IsTold (on_request_utc_time (some s)) h t = call-IsTold (inject_reference_time s) h t
  called_back-IsTold (on_xtra_download_request none) h t = t
  called_back-IsTold (on_xtra_download_request (some [])) h t = t
  called_back-IsTold (on_xtra_download_request (some (b ∷ bytes))) h t = t

  run-IsTold : (es : List (Event F Q)) (h : Hal F Q) → IsTold h → IsTold (run es h)
  unfolding run step
  run-IsTold [] h t = t
  run-IsTold (asked f ∷ es) h t = run-IsTold es _ (call-IsTold f h t)
  run-IsTold (reported c ∷ es) h t = run-IsTold es _ (called_back-IsTold c h t)

  -- Whatever is asked of the layer and whatever the driver reports and answers: the modes that the driver was
  -- told last are the modes that the layer has.
  pub run-construct-IsTold : (es : List (Event F Q)) → IsTold (run es (construct answer))
  unfolding construct IsTold told dispatch_updated_modes_to_driver
  run-construct-IsTold es = run-IsTold es _ refl

  -- Both functions that set a mode answer `true` exactly if the capabilities allow the mode and the driver
  -- takes it; a mode that they do not allow changes nothing and is not told to the driver.
  set_mode-is_capable :
      (a : AssistanceMode) (p : PositionMode) (h : Hal F Q)
      → (call answer (set_assistance_mode a) h ≡ (
          if is_capable_of_assistance h.capabilities a
          then dispatch_updated_modes_to_driver answer (record h { assistance_mode = a })
          else (false, h)))
        × (call answer (set_position_mode p) h ≡ (
            if is_capable_of_position h.capabilities p
            then dispatch_updated_modes_to_driver answer (record h { position_mode = p })
            else (false, h)))
  unfolding call is_capable_of_position
  set_mode-is_capable a single_shot h = (ground arith, ground arith)
  set_mode-is_capable a periodic h = (ground arith, ground arith)
