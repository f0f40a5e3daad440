-- ===== src/SendQueue/Service/Passes.antt =====
-- helper/omaq.c: each pass over the queue ends, and what it leaves behind.
use oma_q.Prelude.{
  ℕ, zero, suc, ◌+◌, ◌≤◌, ◌<◌, ◌≡◌, refl, ◌⊎◌, inl, inr, Bool, true, false, not, ◌&&◌, Option, none,
  some, List, [], ◌∷◌, ◌++◌, ltb, ◌==◌, length, arith, Bool-cases, Option-cases, length-append,
}
use oma_q.Prelude.Int.{ℤ, pos, negsuc}
use oma_q.SendQueue.Slots.{used, used-le-length}
use oma_q.SendQueue.Invariant.{Inv, remove-Inv}
use oma_q.SendQueue.{Slot, SendQueue, member, oldest, remove}
use oma_q.SendQueue.Service.Drain.{
  open_count, open_count-le, open_count-skip, oldest-Waits, oldest-none, remove-open,
}
use oma_q.SendQueue.Service.{
  Host, Verdict, ready, waiting, blocked, FailCode, Service, queued_direct_blocker,
  helper_unavailable, service_loop, fail_send_queue, service_send_queue,
}

Verdict-cases : (v : Verdict) → (v ≡ waiting) ⊎ (v ≡ ready) ⊎ ((c : FailCode) × (v ≡ blocked c))
Verdict-cases waiting = inl refl
Verdict-cases ready = inr (inl refl)
Verdict-cases (blocked c) = inr (inr (c, refl))

open_count-nil : (s : List Slot) → open_count [] s ≡ used s
unfolding open_count used member
open_count-nil [] = refl
open_count-nil (none ∷ s) = open_count-nil s
open_count-nil (some e ∷ s) = omega (arith, open_count-nil s)

module _ (h : Host) where
  -- what a pass returns: a queue that is well formed, with no open entry, and a list of waiting
  -- friends no longer than it may be
  pub record Passed (room : ℕ) (r : Option (SendQueue × List ℕ × h.World)) : Type 0 where
    pub queue : SendQueue
    pub wait : List ℕ
    pub world : h.World
    pub result : r ≡ some (queue, wait, world)
    pub well_formed : Inv queue
    pub all_wait : open_count wait queue.entries ≡ 0
    pub wait_fits : length wait ≤ room

  pub service_loop-Passed :
      (fuel now : ℕ) (q : SendQueue) (wait : List ℕ) (w : h.World) (room : ℕ)
      → Inv q
      → open_count wait q.entries < fuel
      → length wait + open_count wait q.entries ≤ room
      → Passed room (service_loop h fuel now q wait w)
  unfolding service_loop
  service_loop-Passed zero now q wait w room v f b = absurd (omega arith)
  service_loop-Passed (suc fuel) now q wait w room v f b = elim (Option-cases (oldest q wait)) [
    | inl e ↦
        rw (e, service_loop)
          (record {
            queue = q;
            wait = wait;
            world = w;
            result = refl;
            well_formed = v;
            all_wait = oldest-none q wait e;
            wait_fits = omega arith;
          })
    | inr ((i, x), e) ↦
        rw (e, service_loop)
          (elim (Verdict-cases (queued_direct_blocker (h.link w) x now)) [
            | inl p ↦ rw p (
                service_loop-Passed fuel now q (wait ++ x.friend_number ∷ []) w room v
                  (omega (arith, open_count-skip wait q.entries i x (oldest-Waits q wait i x e)))
                  (omega (
                    arith,
                    open_count-skip wait q.entries i x (oldest-Waits q wait i x e),
                    length-append wait (x.friend_number ∷ []),
                  )))
            | inr (inl p) ↦ rw p (
                service_loop-Passed fuel now (remove q (pos i)) wait _ room (remove-Inv q (pos i) v)
                  (omega (arith, remove-open q wait i x (oldest-Waits q wait i x e)))
                  (omega (arith, remove-open q wait i x (oldest-Waits q wait i x e))))
            | inr (inr (c, p)) ↦ rw p (
                service_loop-Passed fuel now (remove q (pos i)) wait _ room (remove-Inv q (pos i) v)
                  (omega (arith, remove-open q wait i x (oldest-Waits q wait i x e)))
                  (omega (arith, remove-open q wait i x (oldest-Waits q wait i x e))))
          ])
  ]

  -- One pass with fuel for 65 rounds always ends. The queue is then well formed, every entry left
  -- belongs to a friend on the list of waiting ones, and that list fits its array of 64.
  pub service_loop_total :
      (now : ℕ) (q : SendQueue) (w : h.World) → Inv q → Passed 64 (service_loop h 65 now q [] w)
  service_loop_total now q w v =
      service_loop-Passed 65 now q [] w 64 v
        (omega (arith, open_count-le [] q.entries, used-le-length q.entries, v.slots))
        (omega (arith, open_count-le [] q.entries, used-le-length q.entries, v.slots))

  -- what `fail_send_queue` returns
  pub record Failed (r : Option (SendQueue × h.World)) : Type 0 where
    pub queue : SendQueue
    pub world : h.World
    pub result : r ≡ some (queue, world)
    pub well_formed : Inv queue
    pub empty : queue.count ≡ 0

  fail_send_queue-Failed :
      (fuel : ℕ) (code : FailCode) (q : SendQueue) (w : h.World)
      → Inv q
      → open_count [] q.entries < fuel
      → Failed (fail_send_queue h fuel code q w)
  unfolding fail_send_queue
  fail_send_queue-Failed zero code q w v f = absurd (omega arith)
  fail_send_queue-Failed (suc fuel) code q w v f = elim (Option-cases (oldest q [])) [
    | inl e ↦
        rw (e, fail_send_queue)
          (record {
            queue = q;
            world = w;
            result = refl;
            well_formed = v;
            empty = omega (arith, v.counted, open_count-nil q.entries, oldest-none q [] e);
          })
    | inr ((i, x), e) ↦
        rw (e, fail_send_queue)
          (fail_send_queue-Failed fuel code (remove q (pos i)) _ (remove-Inv q (pos i) v)
            (omega (arith, remove-open q [] i x (oldest-Waits q [] i x e))))
  ]

  -- After a shutdown request 65 rounds empty the queue.
  pub fail_send_queue_total :
      (code : FailCode) (q : SendQueue) (w : h.World)
      → Inv q
      → Failed (fail_send_queue h 65 code q w)
  fail_send_queue_total code q w v =
      fail_send_queue-Failed 65 code q w v
        (omega (arith, open_count-le [] q.entries, used-le-length q.entries, v.slots))

  -- `service_send_queue` always returns, at any time and in any state of the connection, with a
  -- well-formed queue; and a pass after a shutdown request leaves no message behind.
  pub service_send_queue_total :
      (shutdown : Bool) (now : ℤ) (s : Service h.World)
      → Inv s.queue
      → (s' : Service h.World) × (service_send_queue h 65 shutdown now s ≡ some s')
        × Inv s'.queue
        × (shutdown ≡ true → s'.queue.count ≡ 0)
  unfolding service_send_queue
  service_send_queue_total shutdown (pos now) s v = elim (Bool-cases (s.queue.count == 0)) [
    | inl z ↦ (s, rw z refl, v, λ _. ground arith)
    | inr nz ↦ elim (Bool-cases shutdown) [
      | inl t ↦
          let f = fail_send_queue_total helper_unavailable s.queue s.world v in
          (
            record s { queue = f.queue; world = f.world },
            rw (nz, t, f.result) refl,
            f.well_formed,
            λ _. f.empty,
          )
      | inr u ↦ elim (Bool-cases (not s.wake && ltb now s.check_ms)) [
        | inl early ↦ (s, rw (nz, u, early) refl, v, λ t. cc)
        | inr due ↦
            let p = service_loop_total now s.queue s.world v in
            (
              record { queue = p.queue; wake = false; check_ms = now + 250; world = p.world },
              rw (nz, u, due, p.result) refl,
              p.well_formed,
              λ t. cc,
            )
      ]
    ]
  ]
  service_send_queue_total shutdown (negsuc n) s v = elim (Bool-cases (s.queue.count == 0)) [
    | inl z ↦ (s, rw z refl, v, λ _. ground arith)
    | inr nz ↦ elim (Bool-cases shutdown) [
      | inl t ↦
          let f = fail_send_queue_total helper_unavailable s.queue s.world v in
          (
            record s { queue = f.queue; world = f.world },
            rw (nz, t, f.result) refl,
            f.well_formed,
            λ _. f.empty,
          )
      | inr u ↦ (s, rw (nz, u) refl, v, λ t. cc)
    ]
  ]
