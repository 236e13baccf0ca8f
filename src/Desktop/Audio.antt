-- ===== src/Desktop/Audio.antt =====
-- apps/desktop/src-tauri/src/audio.rs: the voice controls.
use singularis.Prelude.{
  ◌≡◌, refl, Bool, true, false, not, ◌&&◌, ◌||◌, Option, none, some, List, [], ◌∷◌, Result, ok, err,
  ◌>>◌, fail_if, if◌then◌else◌, ltb, eqb, is_empty, all, Text, len, is_ascii_alphanumeric, arith, ℕ,
  All, inl, inr, ◌⊎◌,
}

abbrev pub max_room_id_bytes : ℕ
max_room_id_bytes = 64

pub record AudioStatus : Type 0 where
  pub muted : Bool
  pub deafened : Bool
  pub push_to_talk : Bool
  pub ptt_pressed : Bool
  pub joined_room : Option Text

pub record AudioState : Type 0 where
  pub muted : Bool
  pub deafened : Bool
  pub push_to_talk : Bool
  pub ptt_pressed : Bool
  pub joined_room : Option Text

pub data AudioError : Type 0 where
  invalid_room : AudioError

abbrev pub new : AudioState
new = record {
  muted = false;
  deafened = false;
  push_to_talk = false;
  ptt_pressed = false;
  joined_room = none;
}

abbrev pub status : AudioState → AudioStatus
status a = record {
  muted = a.deafened || a.muted || (a.push_to_talk && not a.ptt_pressed);
  deafened = a.deafened;
  push_to_talk = a.push_to_talk;
  ptt_pressed = a.push_to_talk && a.ptt_pressed;
  joined_room = a.joined_room;
}

unfoldable pub set_muted : Bool → AudioState → AudioStatus × AudioState
set_muted muted a = let after = record a { muted = muted } in (status after, after)

unfoldable pub set_deafened : Bool → AudioState → AudioStatus × AudioState
set_deafened deafened a = let after = record a { deafened = deafened } in (status after, after)

unfoldable pub set_push_to_talk : Bool → AudioState → AudioStatus × AudioState
set_push_to_talk enabled a =
    let after = record a {
      push_to_talk = enabled;
      ptt_pressed = if not enabled then false else a.ptt_pressed;
    } in
    (status after, after)

unfoldable pub set_ptt_pressed : Bool → AudioState → AudioStatus × AudioState
set_ptt_pressed pressed a =
    let after = record a { ptt_pressed = a.push_to_talk && pressed } in (status after, after)

abbrev pub is_room_char : ℕ → Bool
is_room_char c = is_ascii_alphanumeric c || eqb c b'_' || eqb c b'-'

unfoldable pub validate_room_id : Text → Result AudioError Unit
validate_room_id room_id = do
  fail_if (is_empty room_id || ltb max_room_id_bytes (len room_id)) invalid_room
  fail_if (not (all is_room_char room_id)) invalid_room

abbrev pub joined :
    Text → AudioState → Result AudioError Unit → Result AudioError AudioStatus × AudioState
joined room_id a (err e) = (err e, a)
joined room_id a (ok valid) =
    let after = record a { joined_room = some room_id } in (ok (status after), after)

unfoldable pub join_room : Text → AudioState → Result AudioError AudioStatus × AudioState
join_room room_id a = joined room_id a (validate_room_id room_id)

unfoldable pub leave_room : AudioState → AudioStatus × AudioState
leave_room a =
    let after = record a { joined_room = none; ptt_pressed = false } in (status after, after)

pub data Call : Type 0 where
  sets_muted sets_deafened sets_push_to_talk sets_ptt_pressed : Bool → Call
  joins : Text → Call
  leaves : Call

abbrev pub step : Call → AudioState → AudioState
step (sets_muted b) a = (set_muted b a).1
step (sets_deafened b) a = (set_deafened b a).1
step (sets_push_to_talk b) a = (set_push_to_talk b a).1
step (sets_ptt_pressed b) a = (set_ptt_pressed b a).1
step (joins room_id) a = (join_room room_id a).1
step leaves a = (leave_room a).1

unfoldable pub run : List Call → AudioState → AudioState
run [] a = a
run (call ∷ calls) a = run calls (step call a)

abbrev pub InValidRoom : Option Text → Type 0
InValidRoom none = Unit
InValidRoom (some room_id) = validate_room_id room_id ≡ ok tt

step-InValidRoom :
    (call : Call) (a : AudioState)
    → InValidRoom a.joined_room
    → InValidRoom (step call a).joined_room
unfolding set_muted set_deafened set_push_to_talk set_ptt_pressed join_room leave_room
step-InValidRoom (sets_muted b) a h = h
step-InValidRoom (sets_deafened b) a h = h
step-InValidRoom (sets_push_to_talk b) a h = h
step-InValidRoom (sets_ptt_pressed b) a h = h
step-InValidRoom (joins room_id) a h = on_valid (validate_room_id room_id) refl
  where
    on_valid :
        (r : Result AudioError Unit)
        → validate_room_id room_id ≡ r
        → InValidRoom (joined room_id a r).1.joined_room
    on_valid (ok tt) e = e
    on_valid (err _) e = h
step-InValidRoom leaves a h = tt

-- A held key is one that push-to-talk listens to.
abbrev pub IsConsistent : AudioState → Type 0
IsConsistent a = (a.ptt_pressed ≡ true → a.push_to_talk ≡ true) × InValidRoom a.joined_room

step-IsConsistent : (call : Call) (a : AudioState) → IsConsistent a → IsConsistent (step call a)
unfolding set_muted set_deafened set_push_to_talk set_ptt_pressed join_room leave_room
step-IsConsistent (sets_muted b) a h = h
step-IsConsistent (sets_deafened b) a h = h
step-IsConsistent (sets_push_to_talk b) a h = (λ e. ground arith, h.1)
step-IsConsistent (sets_ptt_pressed b) a h = (λ e. ground arith, h.1)
step-IsConsistent (joins room_id) a h =
    (λ e. ground (arith, h.0), step-InValidRoom (joins room_id) a h.1)
step-IsConsistent leaves a h = (λ e. absurd (ground arith), tt)

run-IsConsistent :
    (calls : List Call) (a : AudioState) → IsConsistent a → IsConsistent (run calls a)
unfolding run
run-IsConsistent [] a h = h
run-IsConsistent (call ∷ calls) a h =
    run-IsConsistent calls (step call a) (step-IsConsistent call a h)

-- After any calls on a new state, the key counts as held only while push-to-talk is on, and a joined
-- room has a valid identifier.
pub run-new-IsConsistent : (calls : List Call) → IsConsistent (run calls new)
run-new-IsConsistent calls = run-IsConsistent calls new (λ e. absurd (ground arith), tt)

abbrev pub is_press : Call → Bool
is_press (sets_ptt_pressed b) = b
is_press _ = false

step-released :
    (call : Call) (a : AudioState)
    → is_press call ≡ false
    → a.ptt_pressed ≡ false
    → (step call a).ptt_pressed ≡ false
unfolding set_muted set_deafened set_push_to_talk set_ptt_pressed join_room leave_room
step-released (sets_muted b) a k h = h
step-released (sets_deafened b) a k h = h
step-released (sets_push_to_talk b) a k h = ground arith
step-released (sets_ptt_pressed b) a k h = ground arith
step-released (joins room_id) a k h = ground arith
step-released leaves a k h = refl

run-released :
    (calls : List Call) (a : AudioState)
    → All (λ call. is_press call ≡ false) calls
    → a.ptt_pressed ≡ false
    → (run calls a).ptt_pressed ≡ false
unfolding run
run-released [] a k h = h
run-released (call ∷ calls) a k h =
    run-released calls (step call a) k.1 (step-released call a k.0 h)

-- Leaving a room or switching push-to-talk off releases the key: whatever calls follow without a
-- press, the microphone is reported as muted whenever push-to-talk is on.
pub muted_until_pressed :
    (call : Call) (calls : List Call) (a : AudioState)
    → (call ≡ leaves) ⊎ (call ≡ sets_push_to_talk false)
    → All (λ call. is_press call ≡ false) calls
    → (status (run calls (step call a))).push_to_talk ≡ true
    → (status (run calls (step call a))).muted ≡ true
unfolding leave_room set_push_to_talk
muted_until_pressed call calls a (inl e) k on =
    ground (arith, run-released calls (step call a) k (ground (arith, e)))
muted_until_pressed call calls a (inr e) k on =
    ground (arith, run-released calls (step call a) k (ground (arith, e)))
