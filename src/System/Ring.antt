-- ===== src/System/Ring.antt =====
-- The processes that take turns at the clock, as a ring of jobs.
use yalnix_operating_system.Base.{
  ℕ, ◌≡◌, ◌≢◌, refl, sym, ap, true, some, List, [], ◌∷◌, ◌++◌, arith, null, Option-cases, inl, inr,
}
use yalnix_operating_system.LinkedList.{NodeList, node, add_to_list}
use yalnix_operating_system.Kernel.State.{Kernel, Pcb, UserContext}
use yalnix_operating_system.Kernel.Switch.Turns.{job_at, takes_turns, Turned}

-- A process with the user context that it has to go on with.
pub record Job : Type 0 where
  pub id : ℕ
  pub item : ℕ
  pub uc : UserContext

abbrev pub nodes : List Job → NodeList
nodes [] = []
nodes (j ∷ js) = node j.id j.item ∷ nodes js

abbrev pub Away : ℕ → List Job → Type 0
Away p [] = Unit {0}
Away p (j ∷ js) = (p ≢ j.item) × Away p js

abbrev pub AllDistinct : List Job → Type 0
AllDistinct [] = Unit {0}
AllDistinct (j ∷ js) = Away j.item js × AllDistinct js

-- The jobs are processes that take turns, with their contexts saved.
abbrev pub Waits : Kernel → List Job → Type 0
Waits k [] = Unit {0}
Waits k (j ∷ js) =
    (j.item ≢ null)
    × (job_at k j.item ≡ some (j.id, j.uc))
    × (takes_turns k j.item ≡ true)
    × Waits k js

-- `h` runs, `js` wait in the ready queue in this order, and nobody is blocked.
pub record Ring (k : Kernel) (h : Job) (js : List Job) : Type 0 where
  pub curr : k.curr_proc ≡ h.item
  pub not_null : h.item ≢ null
  pub running : (c : Pcb) × (k.procs h.item ≡ some c) × (c.proc_id ≡ h.id)
  pub frame : k.frame_at h.item ≡ some h.uc
  pub ready : k.ready_procs ≡ nodes js
  pub blocked : k.blocked_procs ≡ []
  pub away : Away h.item js
  pub distinct : AllDistinct js
  pub waits : Waits k js

abbrev pub with_uc : UserContext → Job → Job
with_uc u j = record j { uc = u }

-- What a tick is meant to do: the first of those that wait runs, and the one that ran waits behind the others.
abbrev pub rotate : UserContext → Job → List Job → Job × List Job
rotate u h [] = (with_uc u h, [])
rotate u h (n ∷ js) = (n, js ++ with_uc u h ∷ [])

pub Away-last : (p : ℕ) (js : List Job) (h : Job) → Away p js → p ≢ h.item → Away p (js ++ h ∷ [])
Away-last p [] h a ne = (ne, tt)
Away-last p (j ∷ js) h (d, a) ne = (d, Away-last p js h a ne)

pub AllDistinct-last :
    (js : List Job) (h : Job) → AllDistinct js → Away h.item js → AllDistinct (js ++ h ∷ [])
AllDistinct-last [] h d a = (tt, tt)
AllDistinct-last (j ∷ js) h (e, d) (ne, a) =
    (Away-last j.item js h e (λ z. ne (sym z)), AllDistinct-last js h d a)

pub Waits-last :
    (k : Kernel) (js : List Job) (h : Job)
    → Waits k js
    → h.item ≢ null
    → job_at k h.item ≡ some (h.id, h.uc)
    → takes_turns k h.item ≡ true
    → Waits k (js ++ h ∷ [])
Waits-last k [] h w ne at turns = (ne, at, turns, tt)
Waits-last k (j ∷ js) h (a, b, c, w) ne at turns = (a, b, c, Waits-last k js h w ne at turns)

pub nodes-last :
    (js : List Job) (h : Job) → add_to_list (nodes js) h.item h.id ≡ nodes (js ++ h ∷ [])
nodes-last [] h = refl
nodes-last (j ∷ js) h = ap (◌∷◌ (node j.id j.item)) (nodes-last js h)

pub Waits-Turned :
    (curr next : ℕ) (u : UserContext) (i : ℕ) (k k' : Kernel) (js : List Job)
    → ((q : ℕ) → Turned curr next u i k q k')
    → Away curr js
    → Waits k js
    → Waits k' js
Waits-Turned curr next u i k k' [] t a w = tt
Waits-Turned curr next u i k k' (j ∷ js) t (ne, a) (alive, at, turns, w) = (
  alive,
  ground (arith, (t j.item).job, ne, at),
  (t j.item).takes turns,
  Waits-Turned curr next u i k k' js t a w,
)

pub job_of :
    (k : Kernel) (p i : ℕ) (u : UserContext)
    → job_at k p ≡ some (i, u)
    → (c : Pcb) × (k.procs p ≡ some c) × (c.proc_id ≡ i) × (c.uc ≡ u)
job_of k p i u h = elim (Option-cases (k.procs p)) [
  | inl e ↦ absurd (ground (arith, e, h))
  | inr (c, e) ↦ (c, e, ground (arith, e, h), ground (arith, e, h))
]
