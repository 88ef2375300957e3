-- ===== src/Connectivity.antt =====
-- Which path a resource request takes: `ConnectivityPolicy::Decide` of
-- components/note4_companion/note4_connectivity_policy.cc and the types of its header.
pub mod Policy
mod Tests
use zectrix_note4_platform.Base.{
  Bool, false, if◌then◌else◌, leb, ltb, not, true, ℕ, ◌&&◌, ◌==◌, ◌||◌,
}

abbrev pub maximum_payload_size : ℕ
maximum_payload_size = 4096

-- `kPhonePreferredMaximumBytes`, `kUrgentDeadlineMs` and `kMinimumWifiBatteryPercent`.
abbrev pub phone_preferred_maximum_bytes : ℕ
phone_preferred_maximum_bytes = 2048

abbrev pub urgent_deadline_ms : ℕ
urgent_deadline_ms = 5000

abbrev pub minimum_wifi_battery_percent : ℕ
minimum_wifi_battery_percent = 20

pub data ConnectivityPath : Type 0 where
  phone_proxy direct_wifi defer : ConnectivityPath

pub data DecisionReason : Type 0 where
  phone_preferred large_transfer phone_unavailable urgent_deadline user_forced_phone :
      DecisionReason
  user_forced_wifi user_offline wait_for_phone phone_backoff wifi_backoff : DecisionReason
  missing_wifi_credentials insufficient_power no_available_path shutting_down : DecisionReason
  invalid_request : DecisionReason

pub data PhoneAvailability : Type 0 where
  unavailable present connected : PhoneAvailability

pub data UserConnectivityPolicy : Type 0 where
  automatic phone_only wifi_only offline : UserConnectivityPolicy

pub data ProductPowerState : Type 0 where
  active ble_connected_standby ble_advertising_standby deep_offline_standby wifi_burst shutdown :
      ProductPowerState

-- The `capability` is not read by the policy.
pub record ResourceRequest : Type 0 where
  pub expected_response_size : ℕ
  pub deadline_ms : ℕ
  pub durable : Bool

pub record ConnectivityConditions : Type 0 where
  pub phone : PhoneAvailability
  pub user_policy : UserConnectivityPolicy
  pub power_state : ProductPowerState
  pub external_power : Bool
  pub battery_percent : ℕ
  pub wifi_credentials_available : Bool
  pub phone_retry_after_ms : ℕ
  pub wifi_retry_after_ms : ℕ

pub record ConnectivityDecision : Type 0 where
  pub path : ConnectivityPath
  pub reason : DecisionReason
  pub retry_after_ms : ℕ

abbrev pub defer_for : DecisionReason → ℕ → ConnectivityDecision
defer_for r ms = record { path = defer; reason = r; retry_after_ms = ms }

abbrev pub take_path : ConnectivityPath → DecisionReason → ConnectivityDecision
take_path p r = record { path = p; reason = r; retry_after_ms = 0 }

abbrev pub is_shutdown : ProductPowerState → Bool
is_shutdown shutdown = true
is_shutdown _ = false

abbrev pub is_connected : PhoneAvailability → Bool
is_connected connected = true
is_connected _ = false

abbrev pub is_present : PhoneAvailability → Bool
is_present present = true
is_present _ = false

abbrev pub is_unavailable : PhoneAvailability → Bool
is_unavailable unavailable = true
is_unavailable _ = false

abbrev pub has_power : ConnectivityConditions → Bool
has_power c = c.external_power || leb minimum_wifi_battery_percent c.battery_percent

-- `CanUseWifi`.
abbrev pub can_use_wifi : ConnectivityConditions → Bool
can_use_wifi c = c.wifi_credentials_available && has_power c && c.wifi_retry_after_ms == 0

abbrev pub phone_ready : ConnectivityConditions → Bool
phone_ready c = is_connected c.phone && c.phone_retry_after_ms == 0

abbrev pub is_large : ResourceRequest → Bool
is_large r = ltb phone_preferred_maximum_bytes r.expected_response_size

abbrev pub is_urgent : ResourceRequest → Bool
is_urgent r = not (r.deadline_ms == 0) && leb r.deadline_ms urgent_deadline_ms

unfoldable pub decide_phone_only : ConnectivityConditions → ConnectivityDecision
decide_phone_only c =
    if phone_ready c
    then take_path phone_proxy user_forced_phone
    else if not (c.phone_retry_after_ms == 0)
    then defer_for phone_backoff c.phone_retry_after_ms
    else defer_for (if is_present c.phone then wait_for_phone else phone_unavailable) 0

unfoldable pub decide_wifi_only : ConnectivityConditions → ConnectivityDecision
decide_wifi_only c =
    if can_use_wifi c
    then take_path direct_wifi user_forced_wifi
    else if not c.wifi_credentials_available
    then defer_for missing_wifi_credentials 0
    else if not c.external_power && ltb c.battery_percent minimum_wifi_battery_percent
    then defer_for insufficient_power 0
    else defer_for wifi_backoff c.wifi_retry_after_ms

-- The part of the automatic policy that finds no path.
unfoldable pub decide_no_path : ResourceRequest → ConnectivityConditions → ConnectivityDecision
decide_no_path r c =
    if is_present c.phone && not (is_urgent r) && r.durable
    then defer_for wait_for_phone 0
    else if not (c.phone_retry_after_ms == 0) && not (c.wifi_retry_after_ms == 0)
    then defer_for no_available_path (
        if ltb c.phone_retry_after_ms c.wifi_retry_after_ms
        then c.phone_retry_after_ms
        else c.wifi_retry_after_ms)
    else if not c.wifi_credentials_available
    then defer_for
        (if not (c.phone_retry_after_ms == 0) then phone_backoff else missing_wifi_credentials)
        c.phone_retry_after_ms
    else if not c.external_power && ltb c.battery_percent minimum_wifi_battery_percent
    then defer_for insufficient_power 0
    else if not (c.wifi_retry_after_ms == 0)
    then defer_for wifi_backoff c.wifi_retry_after_ms
    else defer_for no_available_path 0

abbrev pub wifi_reason : ResourceRequest → ConnectivityConditions → DecisionReason
wifi_reason r c =
    if is_large r
    then large_transfer
    else if is_urgent r
    then urgent_deadline
    else if not (c.phone_retry_after_ms == 0)
    then phone_backoff
    else phone_unavailable

unfoldable pub decide_automatic : ResourceRequest → ConnectivityConditions → ConnectivityDecision
unfolding decide_no_path
decide_automatic r c =
    if phone_ready c && not (is_large r)
    then take_path phone_proxy phone_preferred
    else if can_use_wifi c
        && (is_large r
            || is_urgent r
            || is_unavailable c.phone
            || not (c.phone_retry_after_ms == 0))
    then take_path direct_wifi (wifi_reason r c)
    else if phone_ready c
    then take_path phone_proxy phone_preferred
    else decide_no_path r c

-- `ConnectivityPolicy::Decide`.
unfoldable pub decide : ResourceRequest → ConnectivityConditions → ConnectivityDecision
unfolding decide_phone_only decide_wifi_only decide_automatic
decide r c =
    if r.expected_response_size == 0 || ltb maximum_payload_size r.expected_response_size
    then defer_for invalid_request 0
    else if is_shutdown c.power_state
    then defer_for shutting_down 0
    else elim c.user_policy [
      | offline ↦ defer_for user_offline 0
      | phone_only ↦ decide_phone_only c
      | wifi_only ↦ decide_wifi_only c
      | automatic ↦ decide_automatic r c
    ]
