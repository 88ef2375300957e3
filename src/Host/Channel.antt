-- ===== src/Host/Channel.antt =====
-- The slot between the USB worker and the foreground owner,
-- components/note4_host/note4_host_channel.cc. Every method holds the mutex for its whole body, so
-- a run of the two threads is a list of calls. The out-pointers are those of the callers' own
-- frames, never null.
pub mod Delivery
use zectrix_note4_platform.Base.{
  Bool, Option, add32, false, if◌then◌else◌, none, not, some, true, ℕ, ◌&&◌, ◌==◌, ◌||◌,
}
use zectrix_note4_platform.Host.{Frame, empty_frame}

pub data Status : Type 0 where
  ok invalid busy unavailable exists not_found no_space io_error cancelled timeout not_saved :
      Status

pub data State : Type 0 where
  idle queued executing replied : State

pub record Channel : Type 0 where
  pub slot : Frame
  pub state : State
  pub session : ℕ
  pub next_session : ℕ
  pub enabled : Bool

abbrev pub start : Channel
start = record { slot = empty_frame; state = idle; session = 0; next_session = 0; enabled = false }

abbrev pub is_idle : State → Bool
is_idle idle = true
is_idle _ = false

abbrev pub is_queued : State → Bool
is_queued queued = true
is_queued _ = false

abbrev pub is_executing : State → Bool
is_executing executing = true
is_executing _ = false

abbrev pub is_replied : State → Bool
is_replied replied = true
is_replied _ = false

unfoldable pub retire : Channel → Channel
retire c = record c { session = 0; state = if is_executing c.state then executing else idle }

unfoldable pub enable : Channel → Channel
enable c = record c { enabled = true }

unfoldable pub disable : Channel → Channel
unfolding retire
disable c = retire (record c { enabled = false })

-- `++next_session_`, which skips 0 when it wraps.
unfoldable pub next_id : ℕ → ℕ
next_id n = if add32 n 1 == 0 then add32 (add32 n 1) 1 else add32 n 1

unfoldable pub connect : Channel → ℕ × Channel
unfolding next_id
connect c = if not c.enabled || not (c.session == 0) || not (is_idle c.state) then (0, c) else (
  next_id c.next_session,
  record c { session = next_id c.next_session; next_session = next_id c.next_session },
)

unfoldable pub disconnect : ℕ → Channel → Channel
unfolding retire
disconnect session c = if not (session == 0) && session == c.session then retire c else c

unfoldable pub submit : Frame → Channel → Status × Channel
submit request c =
    if not c.enabled || request.session == 0 || not (request.session == c.session)
    then (cancelled, c)
    else if not (is_idle c.state)
    then (busy, c)
    else (ok, record c { slot = request; state = queued })

unfoldable pub take_request : Channel → Option Frame × Channel
take_request c =
    if is_queued c.state then (some c.slot, record c { state = executing }) else (none, c)

unfoldable pub complete : Frame → Channel → Channel
complete reply c =
    if not (is_executing c.state)
      || not (c.slot.id == reply.id)
      || not (c.slot.session == reply.session)
    then c
    else if not (reply.session == c.session)
    then record c { state = idle }
    else record c { slot = reply; state = replied }

unfoldable pub take_reply : ℕ → Channel → Option Frame × Channel
take_reply session c =
    if not (is_replied c.state) || session == 0 || not (session == c.session)
    then (none, c)
    else (some c.slot, record c { state = idle })
