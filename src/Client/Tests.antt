-- ===== src/Client/Tests.antt =====
-- client.ts on small runs, and the theorems at them.
use ragbag.Common.{◌+◌, ◌≡◌, refl, String, true, false, none, some, List, [], ◌∷◌, length, arith}
use ragbag.Common.Dict.{lookup}
use ragbag.Client.Defs.{
  Location, Client, ok, failed, storage_key, load, logout, logout_everywhere, is_authenticated,
}
use ragbag.Client.Interceptor.{Request, Response, auth_header}
use ragbag.Client.Refresh.{
  Loop, Event, arrive, settle, resume, IsValid, step, run, run-IsValid, waited,
}
use ragbag.Client.Refresh.Waiters.{joins, waited-step, retries, refreshed, settle_ok}
use ragbag.Client.Refresh.Drain.{IsDrained, drained}
use ragbag.Client.Session.{is_authenticated-leave}
use ragbag.Client.Pending.{
  remember_pending_invite, pending_invite, take_pending_invite, match_invite,
  take-remember_pending_invite,
}

abbrev at : String → Location
at pathname = record {
  origin = "https://r.example";
  pathname = pathname;
  search = "?url=x";
  href = none;
}

abbrev start : Client
start = load ((storage_key, "t0") ∷ []) [] (at "/app/add")

abbrev ask : String → Request
ask url = record { url = url; headers = some ((auth_header, "Bearer t0") ∷ []) }

abbrev unauthorized : Response
unauthorized = record { status = 401; setup = none }

abbrev idle : Loop
idle = record {
  client = start;
  waiting = [];
  ready = [];
  retried = [];
  given_up = [];
  begun = 0;
  ended = 0;
}

abbrev two_waiting : List Event
two_waiting = arrive (ask "/api/a") unauthorized ∷ arrive (ask "/api/b") unauthorized ∷ []

two_share_one : ((run idle two_waiting).begun ≡ 1) × (length (run idle two_waiting).waiting ≡ 2)
unfolding run load
two_share_one = (refl, refl)

idle-IsValid : IsValid idle
unfolding load
idle-IsValid = ground arith

run-IsValid_example : IsValid (run idle two_waiting)
run-IsValid_example = run-IsValid idle two_waiting idle-IsValid

waited-step_example :
    waited (step idle (arrive (ask "/api/a") unauthorized))
    ≡ waited idle + joins idle (arrive (ask "/api/a") unauthorized)
waited-step_example = waited-step idle (arrive (ask "/api/a") unauthorized)

abbrev busy : Loop
busy = record idle {
  client = record start { refreshing = true };
  waiting = ask "/api/a" ∷ ask "/api/b" ∷ [];
  begun = 1;
}

settle_ok_example : run busy (settle (ok "t1") ∷ resume ∷ resume ∷ []) ≡ record busy {
  client = refreshed "t1" busy.client;
  waiting = [];
  ready = [];
  retried = retries busy.client "t1" busy.waiting;
  ended = 1;
}
settle_ok_example = settle_ok busy "t1" refl refl

is_authenticated-leave_example :
    (is_authenticated (logout failed start).0 ≡ false)
    × (is_authenticated (logout_everywhere failed start).0 ≡ false)
    × (lookup storage_key (logout failed start).0.local_storage ≡ none)
    × (lookup storage_key (logout_everywhere failed start).0.local_storage ≡ none)
is_authenticated-leave_example = is_authenticated-leave failed start

take-remember_pending_invite_example :
    let c' = remember_pending_invite "/app/invite/abc" start in
    (pending_invite c' ≡ some "abc")
    × ((take_pending_invite c').0 ≡ some "abc")
    × ((take_pending_invite (take_pending_invite c').1).0 ≡ none)
unfolding match_invite
take-remember_pending_invite_example =
    take-remember_pending_invite "/app/invite/abc" "abc" start refl

busy-IsValid : IsValid busy
unfolding load
busy-IsValid = ground arith

drained_example :
    let s' = run busy (settle failed ∷ resume ∷ resume ∷ []) in
    IsDrained s' × (length s'.retried + length s'.given_up ≡ waited busy)
drained_example = drained busy failed busy-IsValid
