-- ===== src/Desktop/Video.antt =====
-- apps/desktop/src-tauri/src/video.rs: the camera and the screen share.
use singularis.Prelude.{
  ◌≡◌, refl, Bool, true, false, not, ◌&&◌, List, [], ◌∷◌, if◌then◌else◌, arith,
}

pub record VideoStatus : Type 0 where
  pub camera_enabled : Bool
  pub screen_share_enabled : Bool

pub record VideoState : Type 0 where
  pub camera_enabled : Bool
  pub screen_share_enabled : Bool

abbrev pub new : VideoState
new = record { camera_enabled = false; screen_share_enabled = false }

abbrev pub status : VideoState → VideoStatus
status v = record {
  camera_enabled = v.camera_enabled;
  screen_share_enabled = v.screen_share_enabled;
}

unfoldable pub set_camera_enabled : Bool → VideoState → VideoStatus × VideoState
set_camera_enabled enabled v =
    let after = record v {
      camera_enabled = enabled;
      screen_share_enabled = if enabled then false else v.screen_share_enabled;
    } in
    (status after, after)

unfoldable pub set_screen_share_enabled : Bool → VideoState → VideoStatus × VideoState
set_screen_share_enabled enabled v =
    let after = record v {
      screen_share_enabled = enabled;
      camera_enabled = if enabled then false else v.camera_enabled;
    } in
    (status after, after)

pub data Call : Type 0 where
  sets_camera sets_screen_share : Bool → Call

abbrev pub step : Call → VideoState → VideoState
step (sets_camera enabled) v = (set_camera_enabled enabled v).1
step (sets_screen_share enabled) v = (set_screen_share_enabled enabled v).1

unfoldable pub run : List Call → VideoState → VideoState
run [] v = v
run (call ∷ calls) v = run calls (step call v)

abbrev pub is_exclusive : VideoState → Bool
is_exclusive v = not (v.camera_enabled && v.screen_share_enabled)

step_exclusive :
    (call : Call) (v : VideoState) → is_exclusive v ≡ true → is_exclusive (step call v) ≡ true
unfolding set_camera_enabled set_screen_share_enabled
step_exclusive (sets_camera enabled) v h = ground arith
step_exclusive (sets_screen_share enabled) v h = ground arith

run_exclusive_from :
    (calls : List Call) (v : VideoState) → is_exclusive v ≡ true → is_exclusive (run calls v) ≡ true
unfolding run
run_exclusive_from [] v h = h
run_exclusive_from (call ∷ calls) v h =
    run_exclusive_from calls (step call v) (step_exclusive call v h)

-- After any calls on a new state, the camera and the screen share are never both on.
pub run_exclusive : (calls : List Call) → is_exclusive (run calls new) ≡ true
run_exclusive calls = run_exclusive_from calls new refl
