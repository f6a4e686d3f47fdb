-- ===== src/Window/Appearance.antt =====
-- src/pt-window.c: the scale of the screen, the colours and the file that starts Android.
use furios_initial_setup.Common.{
  Bool, List, Option, String, [], get_elem?, if◌then◌else◌, is_empty, map, none, some, ℕ, ◌+◌, ◌-◌,
  ◌==◌, ◌∷◌,
}
use furios_initial_setup.Common.Bytes.{Bytes, bytes, bytes_eq, c_string}
use furios_initial_setup.Common.Int.{negsuc, pos, ℤ}

-- `SCREEN_SCALES`
abbrev pub screen_scales : List String
screen_scales =
    "1" ∷ ("1.25" ∷ ("1.5" ∷ ("1.75" ∷ ("2" ∷ ("2.25" ∷ ("2.5" ∷ ("2.75" ∷ ("3" ∷ []))))))))

pub data AccentColor : Type 0 where
  blue teal green yellow orange red pink purple slate : AccentColor

pub data ColorScheme : Type 0 where
  scheme_default prefer_dark : ColorScheme

-- What the user set: the settings of the interface and of the display, the commands that were run, the
-- timers of `pt_set_scaling` that are pending, and the file .android_enable.
pub record Appearance : Type 0 where
  pub color_scheme : ColorScheme
  pub accent_color : AccentColor
  pub scaling_timers : ℕ
  pub commands : List String
  pub display_scale : Option String
  pub android_autostart : Bool
  pub android_enable : Bool

-- `pt_set_dark_mode` and `pt_set_default_mode`
unfoldable pub pt_set_dark_mode : Appearance → Appearance
pt_set_dark_mode s = record s { color_scheme = prefer_dark }

unfoldable pub pt_set_default_mode : Appearance → Appearance
pt_set_default_mode s = record s { color_scheme = scheme_default }

-- The scale at a value of the slider; none is a value that is warned about.
unfoldable pub scale_at : ℤ → Option String
scale_at (pos n) = get_elem? screen_scales n
scale_at (negsuc n) = none

-- `pt_set_scaling` at the slider's value, and whether the user holds it
unfoldable pub pt_set_scaling : ℤ → Bool → Appearance → Appearance
unfolding scale_at
pt_set_scaling value is_held s =
    if is_held then record s { scaling_timers = s.scaling_timers + 1 } else elim (scale_at value) [
      | none ↦ s
      | some scale ↦ record s { commands = scale ∷ s.commands; display_scale = some scale }
    ]

-- A timer of `pt_set_scaling`, which is removed as its function returns.
unfoldable pub scaling_timer : ℤ → Bool → Appearance → Appearance
unfolding pt_set_scaling
scaling_timer value is_held s =
    if s.scaling_timers == 0
    then s
    else pt_set_scaling value is_held (record s { scaling_timers = s.scaling_timers - 1 })

-- `pt_window_set_property` for the property android-autostart; what goes wrong with the file, which
-- `worked` tells, is ignored
unfoldable pub set_android_autostart : Bool → Bool → Appearance → Appearance
set_android_autostart worked value s = record s {
  android_autostart = value;
  android_enable = if worked then value else s.android_enable;
}

-- `pt_window_init`: the flag is what the file says.
unfoldable pub init_android_autostart : Appearance → Appearance
init_android_autostart s = record s { android_autostart = s.android_enable }

-- `get_untranslated_color`
unfoldable pub get_untranslated_color : AccentColor → String
get_untranslated_color blue = "blue"
get_untranslated_color teal = "teal"
get_untranslated_color green = "green"
get_untranslated_color yellow = "yellow"
get_untranslated_color orange = "orange"
get_untranslated_color red = "red"
get_untranslated_color pink = "pink"
get_untranslated_color purple = "purple"
get_untranslated_color slate = "slate"

-- `get_color_tooltip`, before it is translated
unfoldable pub get_color_tooltip : AccentColor → String
get_color_tooltip blue = "Blue"
get_color_tooltip teal = "Teal"
get_color_tooltip green = "Green"
get_color_tooltip yellow = "Yellow"
get_color_tooltip orange = "Orange"
get_color_tooltip red = "Red"
get_color_tooltip pink = "Pink"
get_color_tooltip purple = "Purple"
get_color_tooltip slate = "Slate"

-- A toggle: its colour, its tooltip, its style and whether it is active.
pub record Toggle : Type 0 where
  pub toggle_color : AccentColor
  pub tooltip : String
  pub css_class : String
  pub is_active : Bool

-- The place of a colour in the order of the enumeration.
abbrev pub color_index : AccentColor → ℕ
color_index blue = 0
color_index teal = 1
color_index green = 2
color_index yellow = 3
color_index orange = 4
color_index red = 5
color_index pink = 6
color_index purple = 7
color_index slate = 8

abbrev pub all_colors : List AccentColor
all_colors =
    blue ∷ (teal ∷ (green ∷ (yellow ∷ (orange ∷ (red ∷ (pink ∷ (purple ∷ (slate ∷ []))))))))

-- `on_accent_color_toggled_cb`
unfoldable pub on_accent_color_toggled_cb : AccentColor → Appearance → Appearance
on_accent_color_toggled_cb color s =
    if color_index color == color_index s.accent_color then s else record s { accent_color = color }

-- One round of the loop of `setup_accent_color_toggles`
unfoldable pub toggle_for : AccentColor → AccentColor → Toggle
unfolding get_color_tooltip get_untranslated_color
toggle_for key color = record {
  toggle_color = color;
  tooltip = get_color_tooltip color;
  css_class = get_untranslated_color color;
  is_active = color_index color == color_index key;
}

-- `setup_accent_color_toggles`
unfoldable pub setup_accent_color_toggles : Appearance → List Toggle
unfolding toggle_for
setup_accent_color_toggles s = map (toggle_for s.accent_color) all_colors

-- The slider of the scale: its greatest value, its value and its marks.
pub record Slider : Type 0 where
  pub upper : ℕ
  pub value : ℕ
  pub marks : List (ℕ × Option String)

-- `pt_read_device_codename`, on the file's bytes if it can be read; `strip` is `g_strstrip`.
unfoldable pub pt_read_device_codename : (Bytes → Bytes) → Option Bytes → Option Bytes
pt_read_device_codename strip none = none
pt_read_device_codename strip (some []) = none
pt_read_device_codename strip (some (b ∷ bs)) =
    let name = strip (c_string (b ∷ bs)) in if is_empty name then none else some name

-- What `pt_window_init` does to the slider: a device with a small screen has fewer scales.
unfoldable pub init_slider : Option Bytes → Option Slider → Option Slider
init_slider none slider = slider
init_slider (some codename) none = none
init_slider (some codename) (some slider) =
    if bytes_eq codename (bytes "radon")
    then some (record {
      upper = 4;
      value = 4;
      marks = (0, some "Tiny") ∷ ((1, none) ∷ ((2, none) ∷ ((3, none) ∷ ((4, some "Huge") ∷ []))));
    })
    else some slider
