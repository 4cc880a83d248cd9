-- ===== src/Server/Ended.antt =====
-- internal/mcpserver/server.go: the manager of the fleet does not outlive `Serve`.
use fleetmind.Common.Text.{Bytes}
use fleetmind.Server.{
  Effect, listen, start_manager, shut_down, cancel_manager, wait_manager, Ending, cancelled, ended,
  serve,
}
use fleetmind.Common.{true, false, ℕ, List, Bool, ◌∷◌, suc, ◌≡◌, ◌-◌, [], refl}

-- The managers that run after some effects, at how many ran before.
abbrev pub running : ℕ → List Effect → ℕ
running n [] = n
running n (start_manager ∷ es) = running (suc n) es
running n (wait_manager ∷ es) = running (n - 1) es
running n (listen ∷ es) = running n es
running n (shut_down ∷ es) = running n es
running n (cancel_manager ∷ es) = running n es

-- However serving ends, no manager runs when `Serve` returns.
serve-running :
    (failed : Bytes) (fleet : Bool) (e : Ending) → running 0 (serve failed fleet e).0 ≡ 0
unfolding serve
serve-running failed true (cancelled true) = refl
serve-running failed true (cancelled false) = refl
serve-running failed true (ended err) = refl
serve-running failed false (cancelled true) = refl
serve-running failed false (cancelled false) = refl
serve-running failed false (ended err) = refl
