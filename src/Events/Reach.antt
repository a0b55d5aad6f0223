-- ===== src/Events/Reach.antt =====
-- libs/ntdll/io.c and sync.c: the read that is parked, whatever steps the threads of the guest take.
use mathlib.Core.Path.{subst}
use nloader.Base.{
  ◌≡◌, ◌≢◌, refl, ap, none, some, [], ◌∷◌, ◌++◌, arith, length-set, get_elem?, ◌⊎◌, All,
}
use nloader.Events.{
  cancelled, Request, set_event, reset_event, scan, park, announce, report_cancelled,
}
use nloader.Events.Steps.{
  System, waiting, Step, arrives, reads_byte, sets_status, parks, announces, takes, claims, drops,
  delivers, withdraws, reports, signals, resets, scans, Among, Waits,
}
use nloader.Events.Kept.{
  iosb_of, parks-Awaits, announced, claimed-Waits, kept-Waits, written-Awaits, set_status-Waits,
  Delivered, deliver-Waits, All-middle, All-remove,
}

pub data Reach (s : System) : System → Type 0 where
  here : Reach s s
  then_step : {t u : System} → Reach s t → Step t u → Reach s u

Step-Waits : {s t : System} → Step s t → Waits s → Waits t
unfolding park announce report_cancelled
Step-Waits (arrives s ch) h =
    kept-Waits s (record (s.world) { ready = s.world.ready ++ (ch ∷ []) }) s.in_flight refl refl h
Step-Waits (reads_byte s r ch rest free q) h = λ p e.
    let a = h p e in
    record {
      block_in = a.block_in;
      block = a.block;
      unclaimed = (free.not_parked p e, a.unclaimed);
      kept = a.kept;
    }
Step-Waits (sets_status s status iosb free) h = set_status-Waits s status iosb free h
Step-Waits (parks s r free) h = λ p e. parks-Awaits s r p free (ap iosb_of e)
Step-Waits (announces s before after r f) h = λ p e.
    let a = h p e in
    record {
      block_in = omega (arith, a.block_in, length-set s.world.blocks r.iosb waiting);
      block =
          announced s.world.blocks before after r p (λ q. omega (arith, a.block_in, q))
            (subst (λ l. (get_elem? s.world.blocks p.iosb ≡ some waiting) ⊎ Among p.iosb l) f
              a.block);
      unclaimed = a.unclaimed;
      kept = a.kept;
    }
Step-Waits (takes s ch rest e) h =
    kept-Waits s (record (s.world) { ready = rest }) (ch ∷ s.in_flight) refl refl h
Step-Waits (claims s before after ch r w f e) h =
    claimed-Waits s (some r) w e (before ++ after) ((r, ch) ∷ s.claimed) s.cancelling
Step-Waits (drops s before after ch w f e) h =
    claimed-Waits s none w e (before ++ after) s.claimed s.cancelling
Step-Waits (delivers s before after r ch w f e) h =
    subst (Delivered s (before ++ after)) e (deliver-Waits s before after r ch f h)
Step-Waits (withdraws s r w e) h =
    claimed-Waits s (some r) w e s.in_flight s.claimed (r ∷ s.cancelling)
Step-Waits (reports s before after r f) h = λ p e.
    let a = h p e in
    let kept = subst (λ l. All (λ (q : Request). q.iosb ≢ p.iosb) l) f a.kept in
    written-Awaits s (report_cancelled r s.world) r.iosb
      (record { information = 0; status = cancelled }) p refl
      (All-middle (λ (q : Request). q.iosb ≢ p.iosb) before after r kept) a s.claimed
      (before ++ after) a.unclaimed
      (All-remove (λ (q : Request). q.iosb ≢ p.iosb) before after r kept)
Step-Waits (signals s handle) h =
    kept-Waits s (record (s.world) { objects = (set_event handle s.world.objects).1 }) s.in_flight
      refl refl h
Step-Waits (resets s handle) h =
    kept-Waits s (record (s.world) { objects = (reset_event handle s.world.objects).1 }) s.in_flight
      refl refl h
Step-Waits (scans s handles) h =
    kept-Waits s (record (s.world) { objects = (scan handles 0 s.world.objects).1 }) s.in_flight
      refl refl h

-- Whatever the threads of the guest do and whenever bytes arrive, in any order of what they do
-- under the mutex and behind it, the read that is parked has a status block that says that it is
-- pending, unless a read that was given that block has yet to write that, and that no pump and no
-- cancellation is about to write, if this holds at the start. A guest is taken to give each call a
-- status block that exists, and that no call that is under way uses.
pub Reach-Waits : {s t : System} → Reach s t → Waits s → Waits t
Reach-Waits here h = h
Reach-Waits (then_step r st) h = Step-Waits st (Reach-Waits r h)
