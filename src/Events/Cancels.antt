-- ===== src/Events/Cancels.antt =====
-- libs/ntdll/io.c: a cancellation of the parked read and the pumps that run at the time, and a read
-- that a pump completes before the read has announced itself.
use mathlib.Core.Path.{subst}
use nloader.Base.{
  ℕ, zero, suc, ◌∷◌, sym, ◌<◌, ◌≡◌, ◌≢◌, refl, ap, ◌∙◌, Option, none, some, List, [], ◌∷◌, arith,
  length, get_elem?, length-set, get_elem?-set_self, get_elem?-set_ne, Option-cases, inl, inr,
}
use nloader.Scancodes.{ascii_to_scan}
use nloader.Events.{
  Status, success, pending, cancelled, Event, StatusBlock, Request, World, deliver, claim, park,
  announce, set_status, pump_complete, pump, drop_parked, cancel_keyboard,
}
use nloader.Events.Keyboard.{Fits, IsCompleted, complete-IsCompleted, pump_idle}

drop_parked-none : (w : World) → (drop_parked w).parked ≡ none
drop_parked-none w = elim (Option-cases w.parked) [
  | inl e ↦ unfold drop_parked in rw e refl
  | inr (r, e) ↦ unfold drop_parked in rw e refl
]

pub set_status-parked :
    (s : Status) (iosb : ℕ) (w : World) → (set_status s iosb w).parked ≡ w.parked
unfolding set_status
set_status-parked s iosb w = elim (Option-cases (get_elem? w.blocks iosb)) [
  | inl e ↦ rw (set_status, e) refl
  | inr (b, e) ↦ rw (set_status, e) refl
]

cancel_idle : (iosb : ℕ) (w : World) → (cancel_keyboard iosb w).parked ≡ none
unfolding cancel_keyboard
cancel_idle iosb w = set_status-parked cancelled iosb (drop_parked w) ∙ drop_parked-none w

claim-none : (w : World) → w.parked ≡ none → claim w ≡ (none, w)
unfolding claim
claim-none w e =
    ap
      (λ (o : Option Request). elim o as (λ x. Option Request × World) [
        | none ↦ (none, w)
        | some r ↦ (some r, record w { parked = none })
      ])
      e

pump_complete_idle : (ch : ℕ) (w : World) → w.parked ≡ none → pump_complete ch w ≡ some w
unfolding pump_complete
pump_complete_idle ch w e =
    ap
      (λ (c : Option Request × World). elim (c.0) as (λ x. Option World) [
        | none ↦ some (c.1)
        | some r ↦ deliver r ch c.1
      ])
      (claim-none w e)

-- A cancellation that comes before a pump has claimed the request: no pump writes for the request any
-- more, also one that has read its byte already.
pub cancel_keyboard_early :
    (iosb ch : ℕ) (w : World)
    → (pump (cancel_keyboard iosb w) ≡ some (cancel_keyboard iosb w))
      × (pump_complete ch (cancel_keyboard iosb w) ≡ some (cancel_keyboard iosb w))
cancel_keyboard_early iosb ch w = (
  pump_idle (cancel_keyboard iosb w) (cancel_idle iosb w),
  pump_complete_idle ch (cancel_keyboard iosb w) (cancel_idle iosb w),
)

pub set_status_keeps :
    (s : Status) (iosb i : ℕ) (w : World)
    → iosb ≢ i
    → ((set_status s iosb w).objects ≡ w.objects)
      × ((set_status s iosb w).buffers ≡ w.buffers)
      × ((set_status s iosb w).ready ≡ w.ready)
      × (get_elem? (set_status s iosb w).blocks i ≡ get_elem? w.blocks i)
      × (length (set_status s iosb w).blocks ≡ length w.blocks)
unfolding set_status
set_status_keeps s iosb i w other = elim (Option-cases (get_elem? w.blocks iosb)) [
  | inl e ↦ rw (set_status, e) (refl, refl, refl, refl, refl)
  | inr (b, e) ↦
      rw (set_status, e)
        (
          refl,
          refl,
          refl,
          get_elem?-set_ne w.blocks (record b { status = s }) other,
          length-set w.blocks iosb (record b { status = s }),
        )
]

get_elem?-bound_of :
    (xs : List StatusBlock) (i : ℕ) (b : StatusBlock) → get_elem? xs i ≡ some b → i < length xs
get_elem?-bound_of [] i b e = ground (arith, e)
get_elem?-bound_of (x ∷ xs) zero b e = omega arith
get_elem?-bound_of (x ∷ xs) (suc i) b e = omega (arith, get_elem?-bound_of xs i b e)

-- A cancellation that comes after a pump has claimed the request, and before the pump delivers its
-- key: the request is not there to be dropped, and the pump writes the keyboard record and the
-- status block of the read after the cancellation has returned. The block that the cancellation is
-- called with is taken to be another; the key is any byte but 255, and the record, the block and
-- the event of the read exist.
pub cancel_keyboard_late :
    (r : Request) (ch code h iosb : ℕ) (e : Event) (w : World)
    → Fits r h e w
    → w.parked ≡ some r
    → iosb ≢ r.iosb
    → ascii_to_scan ch ≡ some code
    → ((claim w).0 ≡ some r)
      × (get_elem? (cancel_keyboard iosb (claim w).1).blocks r.iosb ≡ get_elem? w.blocks r.iosb)
      × IsCompleted r ch h e w.ready (deliver r ch (cancel_keyboard iosb (claim w).1))
unfolding claim cancel_keyboard drop_parked
cancel_keyboard_late r ch code h iosb e w f p other c =
    let v : World = record w { parked = none } in
    let after = set_status cancelled iosb v in
    let same : cancel_keyboard iosb (claim w).1 ≡ after = rw (claim, p) refl in
    let (objects, buffers, ready, blocks, size) = set_status_keeps cancelled iosb r.iosb v other in
    (
      rw (claim, p) refl,
      ap (λ (u : World). get_elem? u.blocks r.iosb) same ∙ blocks,
      subst (λ u. IsCompleted r ch h e w.ready (deliver r ch u)) (sym same)
          (subst (λ l. IsCompleted r ch h e l (deliver r ch after)) ready
            (complete-IsCompleted r ch code h e after
              (record {
                buffer_in = omega (arith, f.buffer_in, ap length buffers);
                block_in = omega (arith, f.block_in, size);
                completes = f.completes;
                event_in = ap (λ l. get_elem? l h) objects ∙ f.event_in;
              })
              (set_status-parked cancelled iosb v) c)),
    )

-- A pump that claims a request before the read has announced it, and delivers its key: the read
-- then overwrites the status block, so that it says that the read is pending, but no read is
-- parked, and no pump will complete it. The key is any byte but 255, and the record, the block and
-- the event of the read exist.
pub announce_lost :
    (r : Request) (ch code h : ℕ) (e : Event) (w : World)
    → Fits r h e w
    → ascii_to_scan ch ≡ some code
    → (w' : World) × (deliver r ch (claim (park r w)).1 ≡ some w')
      × (get_elem? w'.blocks r.iosb ≡ some (record { information = 12; status = success }))
      × (get_elem? (announce r w').blocks r.iosb
          ≡ some (record { information = 0; status = pending }))
      × (pump (announce r w') ≡ some (announce r w'))
unfolding claim park announce
announce_lost r ch code h e w f c =
    let done =
      complete-IsCompleted r ch code h e (record w { parked = none })
        (record {
          buffer_in = f.buffer_in;
          block_in = f.block_in;
          completes = f.completes;
          event_in = f.event_in;
        })
        refl c in
    let w' = done.after in
    let block : StatusBlock = record { information = 0; status = pending } in
    (
      w',
      done.returns,
      done.reported,
      get_elem?-set_self w'.blocks r.iosb block (
          get_elem?-bound_of w'.blocks r.iosb (record { information = 12; status = success })
            done.reported),
      pump_idle (announce r w') done.idle,
    )
