-- ===== src/Tunnel/Close.antt =====
-- `TunnelInner::close` of src/lib.rs: what it stops, at most once.
use tap_tunnel.Prelude.{
  ℕ, zero, suc, ◌≡◌, refl, ap, ◌∙◌, arith, Bool, true, false, Option, none, some, List, [], ◌∷◌,
  ◌++◌, append_assoc, map, if◌then◌else◌, Bool-cases, Option-cases, inl, inr,
}

-- What `close` does to the rest of the process, in order.
pub data Action : Type 0 where
  kill_child wait_child : ℕ → Action
  abort_task : ℕ → Action

-- The locks are taken; `proxy_child` is the process that was spawned, `task_handles` the tasks.
pub record TunnelInner : Type 0 where
  pub closed : Bool
  pub ipc_dead : Bool
  pub proxy_child : Option ℕ
  pub task_handles : List ℕ
  pub actions : List Action

unfoldable abort_all : List ℕ → List Action
abort_all [] = []
abort_all (h ∷ hs) = abort_task h ∷ abort_all hs

unfoldable reap : Option ℕ → List Action
reap none = []
reap (some child) = kill_child child ∷ wait_child child ∷ []

unfoldable pub close : TunnelInner → TunnelInner
unfolding abort_all reap
close t = elim t.closed [
  | true ↦ t
  | false ↦ record {
    closed = true;
    ipc_dead = true;
    proxy_child = none;
    task_handles = [];
    actions = (t.actions ++ reap t.proxy_child) ++ abort_all t.task_handles;
  }
]

unfoldable pub close_each : ℕ → TunnelInner → TunnelInner
unfolding close
close_each zero t = t
close_each (suc n) t = close_each n (close t)

closed-stays : (n : ℕ) (t : TunnelInner) → t.closed ≡ true → close_each n t ≡ t
unfolding close_each close
closed-stays zero t e = refl
closed-stays (suc n) t e =
    let same : close t ≡ t = ground arith in ap (close_each n) same ∙ closed-stays n t e

abort_all-map : (hs : List ℕ) → abort_all hs ≡ map abort_task hs
unfolding abort_all
abort_all-map [] = refl
abort_all-map (h ∷ hs) = ap (λ t. abort_task h ∷ t) (abort_all-map hs)

abbrev once : TunnelInner → TunnelInner
once t = record {
  closed = true;
  ipc_dead = true;
  proxy_child = none;
  task_handles = [];
  actions =
      t.actions
      ++ (elim t.proxy_child [ none ↦ [] | some child ↦ kill_child child ∷ wait_child child ∷ [] ]
          ++ map abort_task t.task_handles);
}

close-once : (t : TunnelInner) → t.closed ≡ false → close t ≡ once t
unfolding close reap
close-once t e = elim (Option-cases t.proxy_child) [
  | inl gone ↦
      ground
        (arith, abort_all-map t.task_handles, append_assoc t.actions [] (abort_all t.task_handles))
  | inr (child, there) ↦ ground (
    arith,
    abort_all-map t.task_handles,
    append_assoc t.actions (kill_child child ∷ wait_child child ∷ []) (abort_all t.task_handles),
  )
]

-- A tunnel that is closed, however often, at least once: if it was closed before, nothing of it
-- changes and nothing is done; if not, its child, if there is one, is killed and then waited for,
-- then each of its tasks is aborted, each once and in order, and the connection is marked as dead.
pub close_each-once :
    (n : ℕ) (t : TunnelInner)
    → close_each (suc n) t ≡ (
        if t.closed then t else record {
          closed = true;
          ipc_dead = true;
          proxy_child = none;
          task_handles = [];
          actions =
              t.actions
              ++ (elim t.proxy_child [
                | none ↦ []
                | some child ↦ kill_child child ∷ wait_child child ∷ []
              ]
                  ++ map abort_task t.task_handles);
        })
unfolding close_each
close_each-once n t = elim (Bool-cases t.closed) [
  | inl before ↦ closed-stays (suc n) t before ∙ ground arith
  | inr fresh ↦ ap (close_each n) (close-once t fresh) ∙ closed-stays n (once t) refl ∙ ground arith
]
