-- ===== src/Tests/Middlewares.antt =====
-- endpoint, ratelimit and circuitbreaker on small inputs.
use kit_go.Prelude.{ℕ, ◌*◌, ◌≡◌, refl, Bool, true, false, List, [], ◌∷◌, ◌++◌, Option, none, some}
use kit_go.Go.{Error, errors_new}
use kit_go.Endpoint.{Endpoint, Middleware}
use kit_go.Circuitbreaker.{Handy, handy_breaker}
use kit_go.Circuitbreaker.Reports.{Reports, handy_reports}

-- A middleware that notes its number when a request goes through it.
abbrev noting : ℕ → Middleware (List ℕ) ℕ ℕ ℕ
noting n next ctx request w = next ctx request (w ++ n ∷ [])

abbrev doubling : ℕ → ℕ → record { response : ℕ; err : Option Error }
doubling ctx request = record { response = request * 2; err = none }

abbrev three_requests : List (ℕ × ℕ)
three_requests = (0, 5) ∷ (0, 6) ∷ (0, 7) ∷ []

-- A breaker that is closed, and only keeps its reports.
abbrev closed_breaker : Handy (List Bool)
closed_breaker = record {
  allow = λ w. (true, w);
  success = λ d w. (tt, w ++ true ∷ []);
  failure = λ d w. (tt, w ++ false ∷ []);
  now = λ w. (0, w);
  err_circuit_open = errors_new "circuit open";
}

abbrev failing_endpoint : Endpoint (List Bool) ℕ ℕ ℕ
failing_endpoint ctx request w = (record { response = 0; err = some (errors_new "down") }, w)

abbrev kept : Reports closed_breaker failing_endpoint
kept = record {
  seen = λ w. w;
  seen-allow = λ w. refl;
  seen-now = λ w. refl;
  seen-next = λ ctx request w. refl;
  seen-success = λ d w. refl;
  seen-failure = λ d w. refl;
}

handy_reports_example :
    let answered = handy_breaker 0 closed_breaker failing_endpoint 0 1 [] in
    (answered.0 ≡ record { response = 0; err = some (errors_new "down") })
    × (answered.1 ≡ false ∷ [])
handy_reports_example = handy_reports 0 closed_breaker failing_endpoint kept 0 1 []
