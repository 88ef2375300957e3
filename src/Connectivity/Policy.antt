-- ===== src/Connectivity/Policy.antt =====
-- What every decision respects, components/note4_companion/note4_connectivity_policy.cc.
use zectrix_note4_platform.Base.{
  Bool, arith, leb, not, true, ◌&&◌, ◌<◌, ◌==◌, ◌||◌, ◌≡◌, ◌≢◌, ◌≤◌, ◌⊎◌,
}
use zectrix_note4_platform.Connectivity.{
  ResourceRequest, maximum_payload_size, ConnectivityPath, ConnectivityConditions, is_shutdown,
  is_unavailable, can_use_wifi, phone_ready, is_large, is_urgent, decide_phone_only,
  decide_wifi_only, decide_no_path, decide_automatic, decide, shutdown, connected, phone_proxy,
  direct_wifi, defer, automatic, phone_only, wifi_only,
}

abbrev pub is_admissible : ResourceRequest → ConnectivityConditions → Bool
is_admissible r c =
    not (r.expected_response_size == 0)
    && leb r.expected_response_size maximum_payload_size
    && not (is_shutdown c.power_state)

-- The request is one that a frame can answer, and the product is not shutting down.
abbrev pub IsServable : ResourceRequest → ConnectivityConditions → Type 0
IsServable r c =
    (0 < r.expected_response_size) × (r.expected_response_size ≤ 4096) × (c.power_state ≢ shutdown)

-- When a path may be taken and can be, in terms of the conditions alone.
abbrev pub IsUsable : ResourceRequest → ConnectivityConditions → ConnectivityPath → Type 0
IsUsable r c phone_proxy =
    IsServable r c
    × ((c.user_policy ≡ automatic) ⊎ (c.user_policy ≡ phone_only))
    × (c.phone ≡ connected)
    × (c.phone_retry_after_ms ≡ 0)
IsUsable r c direct_wifi =
    IsServable r c
    × ((c.user_policy ≡ automatic) ⊎ (c.user_policy ≡ wifi_only))
    × (c.wifi_credentials_available ≡ true)
    × ((c.external_power ≡ true) ⊎ (20 ≤ c.battery_percent))
    × (c.wifi_retry_after_ms ≡ 0)
IsUsable r c defer = Unit

-- Whatever is decided, the phone is taken only if the user's policy is automatic or phone-only and
-- the phone is connected and not backing off; Wi-Fi only if the policy is automatic or Wi-Fi-only
-- and there are credentials, external power or a battery of at least 20 percent, and no backoff;
-- and either only for an expected response of 1 to 4096 bytes while not shutting down.
pub decide-IsUsable :
    (r : ResourceRequest) (c : ConnectivityConditions) → IsUsable r c (decide r c).path
unfolding decide decide_phone_only decide_wifi_only decide_automatic decide_no_path
decide-IsUsable r c = ground arith

-- Under the automatic policy an admissible request is never deferred while the phone is ready, and a
-- large, urgent or phone-less one is not deferred while Wi-Fi is usable.
pub decide-path :
    (r : ResourceRequest) (c : ConnectivityConditions)
    → is_admissible r c ≡ true
    → c.user_policy ≡ automatic
    → (phone_ready c ≡ true)
      ⊎ ((can_use_wifi c ≡ true) × (is_large r || is_urgent r || is_unavailable c.phone ≡ true))
    → (decide r c).path ≢ defer
unfolding decide decide_automatic
decide-path r c ok auto usable q = ground arith

-- A retry delay other than 0 is only given with a deferral, and is the phone's or Wi-Fi's own.
pub decide-retry :
    (r : ResourceRequest) (c : ConnectivityConditions)
    → (decide r c).retry_after_ms ≢ 0
    → ((decide r c).path ≡ defer)
      × (((decide r c).retry_after_ms ≡ c.phone_retry_after_ms)
          ⊎ ((decide r c).retry_after_ms ≡ c.wifi_retry_after_ms))
unfolding decide decide_phone_only decide_wifi_only decide_automatic decide_no_path
decide-retry r c h = ground arith
