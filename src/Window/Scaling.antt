-- ===== src/Window/Scaling.antt =====
-- src/pt-window.c: what comes of the moves of the slider.
use furios_initial_setup.Common.{
  All, Bool, Bool-cases, List, Option, [], ap, arith, count, false, inl, inr, is_some, length, none,
  not, refl, some, true, ℕ, ◌+◌, ◌<◌, ◌∷◌, ◌≡◌, ◌≤◌, ◌⊎◌,
}
use furios_initial_setup.Common.Bytes.{Bytes, bytes, bytes_eq}
use furios_initial_setup.Common.Int.{pos, ℤ}
use furios_initial_setup.Window.Appearance.{
  AccentColor, Appearance, Slider, init_android_autostart, init_slider, on_accent_color_toggled_cb,
  pt_set_dark_mode, pt_set_default_mode, pt_set_scaling, scale_at, scaling_timer,
  set_android_autostart,
}

pub data AppearanceEvent : Type 0 where
  dark_clicked default_clicked : AppearanceEvent
  slider_moved : ℤ → Bool → AppearanceEvent
  timer_fired : ℤ → Bool → AppearanceEvent
  accent_toggled : AccentColor → AppearanceEvent
  android_set : Bool → Bool → AppearanceEvent

pub appearance_step : AppearanceEvent → Appearance → Appearance
appearance_step dark_clicked s = pt_set_dark_mode s
appearance_step default_clicked s = pt_set_default_mode s
appearance_step (slider_moved v held) s = pt_set_scaling v held s
appearance_step (timer_fired v held) s = scaling_timer v held s
appearance_step (accent_toggled color) s = on_accent_color_toggled_cb color s
appearance_step (android_set worked b) s = set_android_autostart worked b s

pub appearance_run : Appearance → List AppearanceEvent → Appearance
appearance_run s [] = s
appearance_run s (v ∷ vs) = appearance_run (appearance_step v s) vs

abbrev pub is_move : AppearanceEvent → Bool
is_move (slider_moved v held) = true
is_move _ = false

-- The file could not be written or removed.
abbrev pub is_failed : AppearanceEvent → Bool
is_failed (android_set worked b) = not worked
is_failed _ = false

-- The slider stands at a scale there is, wherever it is looked at.
unfoldable pub IsOnScale : AppearanceEvent → Type 0
IsOnScale (slider_moved v held) = is_some (scale_at v) ≡ true
IsOnScale (timer_fired v held) = is_some (scale_at v) ≡ true
IsOnScale _ = Unit

-- The commands that were run with the timers that are still to come.
abbrev pub due : Appearance → ℕ
due s = length s.commands + s.scaling_timers

step-due :
    (v : AppearanceEvent) (s : Appearance)
    → IsOnScale v
    → due (appearance_step v s) ≡ due s + count is_move (v ∷ [])
unfolding appearance_step IsOnScale pt_set_scaling scaling_timer pt_set_dark_mode
    pt_set_default_mode on_accent_color_toggled_cb set_android_autostart
step-due (slider_moved v held) s h = ground arith
step-due (timer_fired v held) s h = ground arith
step-due dark_clicked s h = omega arith
step-due default_clicked s h = omega arith
step-due (accent_toggled color) s h = ground arith
step-due (android_set worked b) s h = omega arith

IsAndroidFile : Appearance → Type 0
IsAndroidFile s = s.android_autostart ≡ s.android_enable

step-IsAndroidFile :
    (v : AppearanceEvent) (s : Appearance)
    → is_failed v ≡ false
    → IsAndroidFile s
    → IsAndroidFile (appearance_step v s)
unfolding appearance_step IsAndroidFile pt_set_scaling scaling_timer pt_set_dark_mode
    pt_set_default_mode on_accent_color_toggled_cb set_android_autostart
step-IsAndroidFile (slider_moved v held) s w h = ground arith
step-IsAndroidFile (timer_fired v held) s w h = ground arith
step-IsAndroidFile dark_clicked s w h = h
step-IsAndroidFile default_clicked s w h = h
step-IsAndroidFile (accent_toggled color) s w h = ground arith
step-IsAndroidFile (android_set true b) s w h = refl
step-IsAndroidFile (android_set false b) s w h = cc

run-moves :
    (s : Appearance) (vs : List AppearanceEvent)
    → All IsOnScale vs
    → due (appearance_run s vs) ≡ due s + count is_move vs
unfolding appearance_run
run-moves s [] all = omega arith
run-moves s (v ∷ vs) (h, all) =
    ground (arith, run-moves (appearance_step v s) vs all, step-due v s h)

run-file :
    (s : Appearance) (vs : List AppearanceEvent)
    → IsAndroidFile s
    → IsAndroidFile (appearance_run s vs) ⊎ (1 ≤ count is_failed vs)
unfolding appearance_run
run-file s [] f = inl f
run-file s (v ∷ vs) f = elim (Bool-cases (is_failed v)) [
  | inl e ↦ inr (ground (arith, e))
  | inr e ↦ elim (run-file (appearance_step v s) vs (step-IsAndroidFile v s e f)) [
    | inl kept ↦ inl kept
    | inr some_failed ↦ inr (ground (arith, e, some_failed))
  ]
]

-- From the start of the window, where the slider always stands at a scale there is: each of its moves
-- comes to one command, at once or by a timer that is still pending, whatever else comes in and however
-- often the timers fire; and the file that starts Android is there exactly if the property says so, or it
-- could once not be written or removed.
pub run-due :
    (s : Appearance) (vs : List AppearanceEvent)
    → All IsOnScale vs
    → let t = appearance_run (init_android_autostart s) vs in
      (due t ≡ due s + count is_move vs)
      × ((t.android_autostart ≡ t.android_enable) ⊎ (1 ≤ count is_failed vs))
unfolding init_android_autostart IsAndroidFile
run-due s vs all =
    let start = init_android_autostart s in (run-moves start vs all, run-file start vs refl)

on_scale : (n : ℕ) → n < 9 → is_some (scale_at (pos n)) ≡ true
unfolding scale_at
on_scale n h = ground arith

abbrev upper_of : Option Slider → ℕ
upper_of none = 0
upper_of (some slider) = slider.upper

upper_lem :
    (codename : Option Bytes) (slider : Slider)
    → slider.upper < 9
    → upper_of (init_slider codename (some slider)) < 9
unfolding init_slider
upper_lem none slider h = h
upper_lem (some codename) slider h = elim (Bool-cases (bytes_eq codename (bytes "radon"))) [
  | inl e ↦ rw e (omega arith)
  | inr e ↦ rw e h
]

-- Where the slider goes no further than there are scales, it does not do so after the window looked for
-- the device either, and it stands at a scale there is wherever it can stand.
slider_on_scale :
    (codename : Option Bytes) (slider t : Slider) (n : ℕ)
    → slider.upper < 9
    → init_slider codename (some slider) ≡ some t
    → n ≤ t.upper
    → is_some (scale_at (pos n)) ≡ true
slider_on_scale codename slider t n h e k =
    on_scale n (omega (arith, upper_lem codename slider h, ap upper_of e))
