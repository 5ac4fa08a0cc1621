-- ===== src/Sim/Custom/Place.antt =====
-- Where custom_enqueue, custom_pick_next and custom_tick put and take processes. (custom.c)
use g20_os_lab_project.Common.{
  ℕ, ◌+◌, ◌-◌, ◌≤◌, ◌<◌, ◌≡◌, ◌≢◌, refl, sym, ap, ◌∙◌, true, false, ltb, ◌==◌, ◌||◌, update,
  update_self, update_ne, ℤ, pos, negsuc, pos_part, some, List, [], ◌∷◌, ◌++◌, All, arith, ltb→lt,
  length, length-append, append-nil,
}
use g20_os_lab_project.Sim.Types.{Procs}
use g20_os_lab_project.Sim.ReadyQueue.{ReadyQueue, contents, queue_remove_at, max_processes}
use g20_os_lab_project.Sim.ReadyQueue.Contents.{
  Removed, queue_remove_at-Removed, queue_push-contents, length-contents,
}
use g20_os_lab_project.Sim.Scan.Best.{NotAfter, scan_all-found}
use g20_os_lab_project.Sim.Custom.{
  CustomState, least_loaded_cpu, most_loaded_cpu, is_cpu, preferred_cpu, score, custom_pick_next,
  steal, custom_tick,
}
use g20_os_lab_project.Sim.Custom.Load.{least_loaded_cpu_lem, most_loaded_cpu_lem}

is_cpu-lt : (x : ℤ) (n : ℕ) → is_cpu x n ≡ true → pos_part x < n
is_cpu-lt (pos c) n h = ltb→lt c n h
is_cpu-lt (negsuc k) n h = ground arith

-- The CPU that a process is put on exists, and its queue is at most one entry longer than that of
-- any CPU.
pub preferred_cpu_lem :
    (queues : ℕ → ReadyQueue) (cpu_count cpu : ℕ) (affinity hint : ℤ)
    → cpu < cpu_count
    → let preferred = preferred_cpu queues cpu_count affinity hint in
      (preferred < cpu_count) × ((queues preferred).size ≤ (queues cpu).size + 1)
unfolding preferred_cpu
preferred_cpu_lem queues cpu_count cpu affinity hint h = ground (
  arith,
  least_loaded_cpu_lem queues cpu_count cpu (omega arith) h,
  is_cpu-lt affinity cpu_count,
  is_cpu-lt hint cpu_count,
)

pub preferred_cpu_affinity :
    (queues : ℕ → ReadyQueue) (cpu_count cpu : ℕ) (hint : ℤ)
    → cpu < cpu_count
    → (queues cpu).size ≤ (queues (least_loaded_cpu queues cpu_count)).size + 1
    → preferred_cpu queues cpu_count (pos cpu) hint ≡ cpu
unfolding preferred_cpu
preferred_cpu_affinity queues cpu_count cpu hint h k = ground arith

-- With processes waiting on the CPU, the pick is one of them with the least score there (short
-- bursts, long waits and affinity first), the smallest pid among equal scores; exactly its entry
-- leaves that CPU's queue, and the other queues stay.
pub custom_pick_next_lem :
    (c : CustomState) (procs : Procs) (cpu_id now : ℕ)
    → 0 < (c.queues cpu_id).size
    → let (r, c') = custom_pick_next c procs cpu_id now in
      (i pid : ℕ) × (r ≡ some pid)
      × Removed (c.queues cpu_id) (c'.queues cpu_id) i pid
      × All
          (NotAfter (score procs cpu_id now) (λ j. (procs j).spec.pid) pid)
          (contents (c.queues cpu_id))
      × ((j : ℕ) → j ≢ cpu_id → c'.queues j ≡ c.queues j)
unfolding custom_pick_next
custom_pick_next_lem c procs cpu_id now h =
    let queue = c.queues cpu_id in
    let (b, found, inside, best) =
      scan_all-found (score procs cpu_id now) (λ j. (procs j).spec.pid) queue.items queue.size h in
    let (q, removed, r, pre) = queue_remove_at-Removed queue b inside in
    rw (found, removed)
      (
        b,
        queue.items b,
        refl,
        rw (update_self c.queues cpu_id q) r,
        best,
        λ j ne. update_ne c.queues cpu_id j q ne,
      )

-- Removing the last entry of a queue.
remove_last :
    (q : ReadyQueue)
    → 0 < q.size
    → (pid : ℕ) × ((queue_remove_at q (pos (q.size - 1))).0 ≡ some pid)
      × (contents q ≡ contents (queue_remove_at q (pos (q.size - 1))).1 ++ pid ∷ [])
remove_last q h =
    let (q', removed, r, pre) = queue_remove_at-Removed q (q.size - 1) (omega arith) in
    let nil : r.after ≡ [] = length-zero r.after (
      omega (
        arith,
        ap length r.old,
        length-append r.before (q.items (q.size - 1) ∷ r.after),
        length-contents q,
        r.place,
      )) in
    rw removed (
      q.items (q.size - 1),
      refl,
      r.old
          ∙ ap (λ l. r.before ++ q.items (q.size - 1) ∷ l) nil
          ∙ ap (λ l. l ++ q.items (q.size - 1) ∷ [])
              (sym (r.new ∙ ap (λ l. r.before ++ l) nil ∙ append-nil r.before)),
    )
  where
    length-zero : (l : List ℕ) → length l ≡ 0 → l ≡ []
    length-zero [] e = refl
    length-zero (x ∷ l) e = absurd (omega arith)

-- What a steal from `heavy` to `light` does: the last waiting process of the heavy queue goes to the
-- end of the light one and is assigned to that CPU; the other queues and processes stay.
pub record Stolen (c c' : CustomState) (procs procs' : Procs) (heavy light now : ℕ) : Type 0 where
  pub pid : ℕ
  pub lost : contents (c.queues heavy) ≡ contents (c'.queues heavy) ++ pid ∷ []
  pub gained : contents (c'.queues light) ≡ contents (c.queues light) ++ pid ∷ []
  pub others : (j : ℕ) → j ≢ heavy → j ≢ light → c'.queues j ≡ c.queues j
  pub assigned : procs' pid ≡ record (procs pid) { assigned_cpu = pos light }
  pub alone : (a : ℕ) → a ≢ pid → procs' a ≡ procs a
  pub clock : c'.last_steal_tick ≡ now

pub steal-Stolen :
    (c : CustomState) (procs : Procs) (heavy light now : ℕ)
    → heavy ≢ light
    → 0 < (c.queues heavy).size
    → (c.queues light).size < max_processes
    → Stolen c
        (steal c procs heavy light now).0
        procs
        (steal c procs heavy light now).1
        heavy
        light
        now
unfolding steal
steal-Stolen c procs heavy light now ne more room =
    let (p, removed, con) = remove_last (c.queues heavy) more in
    let q = (queue_remove_at (c.queues heavy) (pos ((c.queues heavy).size - 1))).1 in
    let old = update_ne c.queues heavy light q (λ e. ne (sym e)) in
    rw (removed, steal)
      (record {
        pid = p;
        lost =
            con
            ∙ ap (λ (t : ReadyQueue). contents t ++ p ∷ [])
                (sym (
                  update_ne (update c.queues heavy q) light heavy _ ne
                  ∙ update_self c.queues heavy q));
        gained =
            ap contents (update_self (update c.queues heavy q) light _)
            ∙ rw old (queue_push-contents (c.queues light) p room);
        others = λ j a b.
            update_ne (update c.queues heavy q) light j _ b ∙ update_ne c.queues heavy j q a;
        assigned = update_self procs p _;
        alone = λ a d. update_ne procs p a _ d;
        clock = refl;
      })

-- With a positive threshold and no queue above 128 entries, at a tick after tick 0 at which the
-- steal interval has passed and some CPU's queue is at least the threshold longer than another's:
-- there are a CPU with a queue as long as any and a CPU with a queue as short as any, the last process
-- of the first queue goes to the end of the second and is assigned to its CPU, the other queues and
-- processes stay, and the tick is recorded.
pub custom_tick_steals :
    (c : CustomState) (cpu_count : ℕ) (procs : Procs) (now a b : ℕ)
    → 0 < c.imbalance_threshold
    → ((j : ℕ) → j < cpu_count → (c.queues j).size ≤ max_processes)
    → c.steal_interval ≤ now - c.last_steal_tick
    → 0 < now
    → a < cpu_count
    → b < cpu_count
    → c.imbalance_threshold ≤ (c.queues a).size - (c.queues b).size
    → let (c', procs') = custom_tick c cpu_count procs now in
      (heavy : ℕ) × (light : ℕ) × (heavy < cpu_count)
      × (light < cpu_count)
      × ((j : ℕ)
          → j < cpu_count
          → ((c.queues light).size ≤ (c.queues j).size)
            × ((c.queues j).size ≤ (c.queues heavy).size))
      × Stolen c c' procs procs' heavy light now
unfolding custom_tick
custom_tick_steals c cpu_count procs now a b positive room late start in_a in_b apart = (
  heavy,
  light,
  (most a in_a).0,
  (least b in_b).0,
  λ j low. ((least j low).1, (most j low).1),
  rw (early, close)
      (steal-Stolen c procs heavy light now
        (λ e. omega (arith, ap (λ j. (c.queues j).size) e, wide)) (omega (arith, wide))
        (omega (arith, wide, room heavy (most a in_a).0))),
)
  where
    heavy : ℕ
    heavy = most_loaded_cpu c.queues cpu_count

    light : ℕ
    light = least_loaded_cpu c.queues cpu_count

    most :
        (j : ℕ) → j < cpu_count → (heavy < cpu_count) × ((c.queues j).size ≤ (c.queues heavy).size)
    most j low = most_loaded_cpu_lem c.queues cpu_count j (omega (arith, low)) low

    least :
        (j : ℕ) → j < cpu_count → (light < cpu_count) × ((c.queues light).size ≤ (c.queues j).size)
    least j low = least_loaded_cpu_lem c.queues cpu_count j (omega (arith, low)) low

    wide : c.imbalance_threshold ≤ (c.queues heavy).size - (c.queues light).size
    wide = omega (arith, apart, (most a in_a).1, (least b in_b).1)

    early : (now == 0 || ltb (now - c.last_steal_tick) c.steal_interval) ≡ false
    early = ground arith

    close : ltb ((c.queues heavy).size - (c.queues light).size) c.imbalance_threshold ≡ false
    close = let w = wide in ground arith
