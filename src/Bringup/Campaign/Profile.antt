-- ===== src/Bringup/Campaign/Profile.antt =====
-- Campaign modes and profiles of qualification_campaign_core.cc. A time in nanoseconds is an
-- `int64_t`, modelled by an integer.
use Prim.Native.String.{String}
use text.Mathlib.Text.{◌==◌ as str_eq}
use mentor_pi_ros.Prelude.{
  ℕ, Bool, true, false, ◌&&◌, Option, none, some, List, [], ◌∷◌, ◌==◌, same, if◌then◌else◌,
}
use mentor_pi_ros.Prelude.Int.{ℤ, pos, eq_ℤ}

abbrev pub command_count : ℕ
command_count = 7

abbrev pub service_count : ℕ
service_count = 6

abbrev pub telemetry_count : ℕ
telemetry_count = 7

abbrev pub maximum_transitions : ℕ
maximum_transitions = 100

abbrev pub nanoseconds_per_second : ℕ
nanoseconds_per_second = 1_000_000_000

pub data CampaignMode : Type 0 where
  load_500 soak reconnect_usb reconnect_agent reset_mcu : CampaignMode

abbrev pub mode_eq : CampaignMode → CampaignMode → Bool
mode_eq load_500 load_500 = true
mode_eq soak soak = true
mode_eq reconnect_usb reconnect_usb = true
mode_eq reconnect_agent reconnect_agent = true
mode_eq reset_mcu reset_mcu = true
mode_eq _ _ = false

unfoldable pub campaign_mode_name : CampaignMode → String
campaign_mode_name load_500 = "load500"
campaign_mode_name soak = "soak"
campaign_mode_name reconnect_usb = "reconnect_usb"
campaign_mode_name reconnect_agent = "reconnect_agent"
campaign_mode_name reset_mcu = "reset_mcu"

unfoldable pub parse_campaign_mode : String → Option CampaignMode
parse_campaign_mode value =
    if str_eq value "load500"
    then some load_500
    else if str_eq value "soak"
    then some soak
    else if str_eq value "reconnect_usb"
    then some reconnect_usb
    else if str_eq value "reconnect_agent"
    then some reconnect_agent
    else if str_eq value "reset_mcu"
    then some reset_mcu
    else none

pub record Rate : Type 0 where
  pub numerator : ℕ
  pub denominator_seconds : ℕ

pub record CampaignProfile : Type 0 where
  pub mode : CampaignMode
  pub canonical_duration_ns : ℤ
  pub command_rates : List Rate
  pub service_round_period_ns : ℤ
  pub expected_cycles : ℕ
  pub continuous_session_required : Bool

abbrev per : ℕ → ℕ → Rate
per n seconds = record { numerator = n; denominator_seconds = seconds }

abbrev load_rates : List Rate
load_rates = per 500 1 ∷ per 10 1 ∷ per 2 1 ∷ per 1 1 ∷ per 1 10 ∷ per 10 1 ∷ per 1 5 ∷ []

abbrev soak_rates : List Rate
soak_rates = per 50 1 ∷ per 20 1 ∷ per 10 1 ∷ per 1 1 ∷ per 1 60 ∷ per 30 1 ∷ per 1 1 ∷ []

abbrev profile_with : CampaignMode → ℕ → List Rate → ℕ → Bool → CampaignProfile
profile_with mode duration rates cycles continuous = record {
  mode = mode;
  canonical_duration_ns = pos duration;
  command_rates = rates;
  service_round_period_ns = pos 60_000_000_000;
  expected_cycles = cycles;
  continuous_session_required = continuous;
}

unfoldable pub campaign_profile_for_mode : CampaignMode → CampaignProfile
campaign_profile_for_mode load_500 = profile_with load_500 3_600_000_000_000 load_rates 0 true
campaign_profile_for_mode soak = profile_with soak 86_400_000_000_000 soak_rates 0 true
campaign_profile_for_mode reconnect_usb = profile_with reconnect_usb 0 load_rates 100 false
campaign_profile_for_mode reconnect_agent = profile_with reconnect_agent 0 load_rates 100 false
campaign_profile_for_mode reset_mcu = profile_with reset_mcu 0 load_rates 100 false

-- The rates of two profiles, which have seven each.
unfoldable pub rates_equal : List Rate → List Rate → Bool
rates_equal [] [] = true
rates_equal [] (b ∷ right) = false
rates_equal (a ∷ left) [] = false
rates_equal (a ∷ left) (b ∷ right) =
    a.numerator == b.numerator
    && a.denominator_seconds == b.denominator_seconds
    && rates_equal left right

unfoldable pub profiles_equal : CampaignProfile → CampaignProfile → Bool
unfolding rates_equal
profiles_equal left right =
    mode_eq left.mode right.mode
    && eq_ℤ left.canonical_duration_ns right.canonical_duration_ns
    && eq_ℤ left.service_round_period_ns right.service_round_period_ns
    && left.expected_cycles == right.expected_cycles
    && same left.continuous_session_required right.continuous_session_required
    && rates_equal left.command_rates right.command_rates
