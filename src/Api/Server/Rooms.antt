-- ===== src/Api/Server/Rooms.antt =====
-- The routes of the chat rooms.
use vdexnode.Common.{◌≡◌, refl, String, Bool, true, false, ◌||◌, is_empty, if◌then◌else◌}
use vdexnode.Common.Outcome.{err}
use vdexnode.Api.Network.{Network}
use vdexnode.Api.Handler.{Handler, send_to_user}
use vdexnode.Api.Server.{decoded, stream, put_msg, put_encrypted_msg}

module _ (n : Network) where
  refused_or :
      (b : Bool) (x : Handler n) (h : Handler n)
      → ◌≡◌ {A = Bool × Handler n} (if b || true then (false, h) else (true, x)) (false, h)
  refused_or true x h = refl
  refused_or false x h = refl

  -- A room or a user without a name, or whose name does not decode, is refused by all three routes
  -- and changes nothing.
  pub empty_room_refused :
      (raw raw_user message : String) (h : Handler n)
      → decoded n raw ≡ ""
      → (stream n raw h ≡ err "Cannot decode room")
        × (◌≡◌ {A = Bool × Handler n} (put_msg n raw message h) (false, h))
        × (◌≡◌ {A = Bool × Handler n} (put_encrypted_msg n raw raw_user message h) (false, h))
        × (◌≡◌ {A = Bool × Handler n} (put_encrypted_msg n raw_user raw message h) (false, h))
  unfolding stream put_msg put_encrypted_msg
  empty_room_refused raw raw_user message h e = (
    rw (e, stream) refl,
    rw (e, put_msg) refl,
    rw (e, put_encrypted_msg) refl,
    rw (e, put_encrypted_msg)
        (refused_or (is_empty (decoded n raw_user))
          (send_to_user n (decoded n raw_user) "" message h) h),
  )
