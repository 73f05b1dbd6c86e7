-- ===== src/Client/Pipeline/Bounds.antt =====
-- How often a request of client.ts goes to the server.
use ragbag.Common.{ℕ, ◌≤◌, ◌+◌, String, Bool, [], ◌∷◌, ◌++◌, length}
use ragbag.Sdk.Runtime.{Platform}
use ragbag.Sdk.Runtime.Request.{FetchParams, Response as ApiResponse, Outcome}
use ragbag.Client.Defs.{Client}
use ragbag.Client.Interceptor.{Request}
use ragbag.Client.Pipeline.{World}
use ragbag.Client.Pipeline.Steps.{first}

-- How many requests were sent so far.
abbrev pub count : {Server : Type 0} → World Server → ℕ
count w = length w.sent

-- From one number, at most so much more.
abbrev Within : ℕ → ℕ → ℕ → Type 0
Within low more n = (low ≤ n) × (n ≤ low + more)

module _ {Server : Type 0} (fetch : FetchParams → Server → Server × Outcome ApiResponse)
    (awaited : World Server → World Server × Bool) (platform : Platform) (base : String) where
  -- The world after the first fetch of a request.
  abbrev asked : FetchParams → World Server → World Server
  asked params w = record w {
    server = (fetch (first params w) w.server).0;
    sent = w.sent ++ first params w ∷ [];
  }
