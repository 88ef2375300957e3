-- ===== src/Connectivity/Tests.antt =====
-- Decisions of the connectivity policy.
use zectrix_note4_platform.Base.{false, inl, refl, true, ◌≡◌, ◌≢◌}
use zectrix_note4_platform.Connectivity.{
  ResourceRequest, ConnectivityConditions, defer_for, decide_no_path, decide_automatic, decide,
  defer, no_available_path, connected, automatic, active,
}
use zectrix_note4_platform.Connectivity.Policy.{IsUsable, decide-IsUsable, decide-path}

abbrev large_request : ResourceRequest
large_request = record { expected_response_size = 3000; deadline_ms = 0; durable = true }

abbrev at_desk : ConnectivityConditions
at_desk = record {
  phone = connected;
  user_policy = automatic;
  power_state = active;
  external_power = false;
  battery_percent = 55;
  wifi_credentials_available = true;
  phone_retry_after_ms = 0;
  wifi_retry_after_ms = 0;
}

abbrev on_the_road : ConnectivityConditions
on_the_road = record at_desk { phone_retry_after_ms = 700; wifi_retry_after_ms = 300 }

decide-IsUsable_example : IsUsable large_request at_desk (decide large_request at_desk).path
decide-IsUsable_example = decide-IsUsable large_request at_desk

decide-path_example : (decide large_request at_desk).path ≢ defer
decide-path_example = decide-path large_request at_desk refl refl (inl refl)

both_wait : decide large_request on_the_road ≡ defer_for no_available_path 300
unfolding decide decide_automatic decide_no_path
both_wait = refl
