-- ===== src/Tenant/Settings.antt =====
-- trpcservice/tenant/tenant.go: the configuration of a tenant and its validation. The fields that
-- Tenant, CreateInput and UpdateConfigurationInput share are one record.
use trpc_agent_service_platf.Tenant.Identity.{Error, invalid}
use trpc_agent_service_platf.Base.{
  nat_eq, list_eq, [], ◌||◌, none, leb, eqb, ◌∷◌, some, require, not, ◌>>◌, ℕ, true, ok, length,
  false, ◌==◌, ◌++◌, ◌&&◌, ◌≡◌, if◌then◌else◌, Result, Option, List, Bool,
}
use trpc_agent_service_platf.Base.Text.{codes, is_empty, trim_space, Text}
use trpc_agent_service_platf.Base.Ints.{int_leb, int_eq, pos, ℤ}
use trpc_agent_service_platf.Base.Floats.{float_above, float_is_neg, is_finite, Float64}
use trpc_agent_service_platf.Base.Trimming.{trim_space-trim_space}
use Prim.Native.String.{String}

pub data LogMaskingLevel : Type 0 where
  masking_none masking_basic masking_strict masking_unset : LogMaskingLevel
  masking_unknown : Text → LogMaskingLevel

pub record Configuration : Type 0 where
  pub display_name : Text
  pub rate_limit_rpm : Option ℤ
  pub max_concurrent_executions : Option ℤ
  pub monthly_token_budget : Option ℤ
  pub monthly_spend_limit_minor : Option ℤ
  pub billing_currency : Text
  pub audit_retention_days : ℤ
  pub log_masking_level : LogMaskingLevel
  pub trace_sampling_rate : Float64
  pub default_agent_app_id : Option Text
  pub default_backend_profile_id : Option Text

-- The words of a line, cut at the spaces.
words_from : List ℕ → List Text
words_from [] = [] ∷ []
words_from (c ∷ s) = let rest = words_from s in if eqb c b' ' then [] ∷ rest else extend c rest
  where
    extend : ℕ → List Text → List Text
    extend d [] = (d ∷ []) ∷ []
    extend d (w ∷ ws) = (d ∷ w) ∷ ws

words : String → List Text
unfolding words_from
words s = words_from (codes s)

unfoldable pub iso4217_currencies : List Text
unfolding words
iso4217_currencies =
    words "AED AFN ALL AMD ANG AOA ARS AUD AWG AZN BAM BBD BDT BGN BHD BIF"
    ++ words "BMD BND BOB BOV BRL BSD BTN BWP BYN BZD CAD CDF CHE CHF CHW CLF"
    ++ words "CLP CNY COP COU CRC CUC CUP CVE CZK DJF DKK DOP DZD EGP ERN ETB"
    ++ words "EUR FJD FKP GBP GEL GHS GIP GMD GNF GTQ GYD HKD HNL HTG HUF IDR"
    ++ words "ILS INR IQD IRR ISK JMD JOD JPY KES KGS KHR KMF KPW KRW KWD KYD"
    ++ words "KZT LAK LBP LKR LRD LSL LYD MAD MDL MGA MKD MMK MNT MOP MRU MUR"
    ++ words "MVR MWK MXN MXV MYR MZN NAD NGN NIO NOK NPR NZD OMR PAB PEN PGK"
    ++ words "PHP PKR PLN PYG QAR RON RSD RUB RWF SAR SBD SCR SDG SEK SGD SHP"
    ++ words "SLE SLL SOS SRD SSP STN SVC SYP SZL THB TJS TMT TND TOP TRY TTD"
    ++ words "TWD TZS UAH UGX USD USN UYI UYU UYW UZS VED VES VND VUV WST XAF"
    ++ words "XAG XAU XBA XBB XBC XBD XCD XDR XOF XPD XPF XPT XSU XTS XUA XXX"
    ++ words "YER ZAR ZMW ZWL"

unfoldable pub iso4217_non_monetary_codes : List Text
unfolding words
iso4217_non_monetary_codes = words "XAG XAU XBA XBB XBC XBD XDR XPD XPT XSU XTS XUA XXX"

unfoldable pub is_listed : Text → List Text → Bool
is_listed key [] = false
is_listed key (x ∷ xs) = x == key || is_listed key xs

unfoldable pub valid_currency : Text → Bool
unfolding iso4217_currencies iso4217_non_monetary_codes is_listed
valid_currency currency =
    is_listed currency iso4217_currencies && not (is_listed currency iso4217_non_monetary_codes)

unfoldable pub validate_display_name : Text → Result Error Unit
validate_display_name name =
    let n = length (trim_space name) in require (leb 1 n && leb n 200) invalid

-- A limit that is unset, or at least the least.
abbrev at_least : ℤ → Option ℤ → Bool
at_least least none = true
at_least least (some v) = int_leb least v

unfoldable pub validate_limits : Configuration → Result Error Unit
validate_limits c = do
  require (at_least (pos 0) c.rate_limit_rpm) invalid
  require (at_least (pos 1) c.max_concurrent_executions) invalid
  require (at_least (pos 0) c.monthly_token_budget) invalid
  require (at_least (pos 0) c.monthly_spend_limit_minor) invalid

abbrev is_set : Option ℤ → Bool
is_set none = false
is_set (some v) = true

unfoldable pub validate_currency_limits : Configuration → Result Error Unit
unfolding valid_currency
validate_currency_limits c = do
  require (not (is_set c.monthly_spend_limit_minor) || valid_currency c.billing_currency) invalid
  require (is_empty c.billing_currency || valid_currency c.billing_currency) invalid

abbrev is_masking : LogMaskingLevel → Bool
is_masking masking_none = true
is_masking masking_basic = true
is_masking masking_strict = true
is_masking masking_unset = false
is_masking (masking_unknown s) = false

unfoldable pub validate_telemetry_configuration : Configuration → Result Error Unit
validate_telemetry_configuration c = do
  require (int_leb (pos 1) c.audit_retention_days) invalid
  require (is_masking c.log_masking_level) invalid
  let rate = c.trace_sampling_rate
  require (is_finite rate && not (float_is_neg rate) && not (float_above rate 1)) invalid

unfoldable pub validate_configuration : Configuration → Result Error Unit
unfolding validate_display_name validate_limits validate_currency_limits
    validate_telemetry_configuration
validate_configuration c = do
  validate_display_name c.display_name
  validate_limits c
  validate_currency_limits c
  validate_telemetry_configuration c

abbrev pub default_masking : LogMaskingLevel → LogMaskingLevel
default_masking masking_none = masking_none
default_masking masking_basic = masking_basic
default_masking masking_strict = masking_strict
default_masking masking_unset = masking_basic
default_masking (masking_unknown s) = masking_unknown s

-- The defaults of a new or replaced configuration.
unfoldable pub with_defaults : Configuration → Configuration
with_defaults c = record c {
  audit_retention_days = if c.audit_retention_days == pos 0 then pos 90 else c.audit_retention_days;
  log_masking_level = default_masking c.log_masking_level;
}

-- What is stored of a configuration that was accepted.
abbrev pub trimmed : Configuration → Configuration
trimmed c = record c { display_name = trim_space c.display_name }

-- A stored configuration is accepted again.
pub trimmed-validate_configuration :
    (c : Configuration)
    → validate_configuration c ≡ ok tt
    → validate_configuration (trimmed c) ≡ ok tt
unfolding validate_configuration validate_display_name validate_limits validate_currency_limits
    validate_telemetry_configuration
trimmed-validate_configuration c h = rw (trim_space-trim_space c.display_name) h
