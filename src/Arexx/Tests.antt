-- ===== src/Arexx/Tests.antt =====
-- A client connects, sends a message to a port, and is answered; another waits until its time is up.
use amigactl.Prelude.{ℕ, true, false, List, some, ◌≡◌, refl, get_elem?, codes}
use amigactl.Prelude.Int.{pos, ◌+ℤ◌, ◌-ℤ◌, ◌*ℤ◌}
use amigactl.Arexx.{
  DateStamp, Bridge, System, RexxReply, initial_bridge, cmd_arexx, handle_accept, free_client,
  arexx_check_timeouts, disconnect_client, elapsed, seconds,
}
use amigactl.Arexx.Served.{Served}
use amigactl.Arexx.Steps.{
  Reach, start, next, arexx, timeouts, disconnect, accept, initial_bridge-Served, Reach-Served,
}

abbrev noon : DateStamp
noon = record { days = 100; minute = 720; tick = 0 }

abbrev later : DateStamp
later = record { days = 100; minute = 720; tick = 1400 }

abbrev system : System
system = record {
  has_library = true;
  new_message = 64;
  has_argstring = true;
  has_port = λ name. true;
  now = noon;
}

abbrev one_client : Bridge
one_client = handle_accept initial_bridge

abbrev question : List ℕ
question = codes "REXX say hello"

abbrev asked : Bridge
asked = (cmd_arexx system 0 question one_client).0

client_there :
    get_elem? one_client.clients 0 ≡ some (record { connected = true; arexx_pending = false })
unfolding handle_accept free_client initial_bridge
client_there = refl

asking : Reach initial_bridge asked
asking = next (next start accept) (arexx system 0 question client_there refl)

Reach-Served_example : Served (disconnect_client 0 (arexx_check_timeouts later asked).0)
Reach-Served_example =
    Reach-Served initial_bridge-Served (next (next asking (timeouts later)) (disconnect 0))

abbrev hello_back : RexxReply
hello_back = record { message = 64; rc = pos 0; result = codes "hello" }

-- Half a minute is over after 31 seconds, also across midnight.
abbrev before_midnight : DateStamp
before_midnight = record { days = 100; minute = 1439; tick = 2000 }

abbrev after_midnight : DateStamp
after_midnight = record { days = 101; minute = 0; tick = 550 }

across_midnight : elapsed after_midnight before_midnight ≡ pos 31
unfolding elapsed seconds ◌+ℤ◌ ◌-ℤ◌ ◌*ℤ◌
across_midnight = refl
