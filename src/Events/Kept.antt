-- ===== src/Events/Kept.antt =====
-- libs/ntdll/io.c and sync.c: what a step leaves of the read that is parked.
use mathlib.Core.Path.{subst}
use nloader.Base.{
  ℕ, ◌<◌, ◌≡◌, ◌≢◌, refl, ap, sym, ◌∙◌, true, Option, none, some, List, [], ◌∷◌, ◌++◌, arith,
  length, length-set, get_elem?, set, get_elem?-set_self, get_elem?-set_ne, ◌⊎◌, Option-cases,
  Bool-cases, inl, inr, ◌==◌, ==_iff, All, All-append, All-append_left, All-append_right,
}
use nloader.Scancodes.{ascii_to_scan}
use nloader.Events.{
  Status, success, StatusBlock, Request, World, set_event, deliver, claim, park, set_status,
}
use nloader.Events.Keyboard.{deliver_lem}
use nloader.Events.Cancels.{set_status-parked, set_status_keeps}
use nloader.Events.Steps.{System, waiting, IsFree, Among, Awaits, Waits}

Among-remove :
    (i : ℕ) (before after : List Request) (r : Request)
    → r.iosb ≢ i
    → Among i (before ++ (r ∷ after))
    → Among i (before ++ after)
Among-remove i [] after r ne (inl e) = absurd (ne e)
Among-remove i [] after r ne (inr a) = a
Among-remove i (b ∷ before) after r ne (inl e) = inl e
Among-remove i (b ∷ before) after r ne (inr a) = inr (Among-remove i before after r ne a)

module _ {A : Type 0} (P : A → Type 0) where
  pub All-middle : (xs ys : List A) (a : A) → All P (xs ++ (a ∷ ys)) → P a
  All-middle xs ys a h = (All-append_right P xs (a ∷ ys) h).0

  pub All-remove : (xs ys : List A) (a : A) → All P (xs ++ (a ∷ ys)) → All P (xs ++ ys)
  All-remove xs ys a h =
      All-append P xs ys (All-append_left P xs (a ∷ ys) h) (All-append_right P xs (a ∷ ys) h).1

-- The world after a byte was delivered to a request.
abbrev delivered : Request → ℕ → World → World
delivered r code w = record w {
  buffers =
      set w.buffers r.buffer (record { unit = r.unit_id; make_code = code; key_break = true });
  blocks = set w.blocks r.iosb (record { information = 12; status = success });
  objects = (set_event r.completion w.objects).1;
}

-- Where no request is parked there is nothing to say.
idle-Waits : (s : System) → s.world.parked ≡ none → Waits s
idle-Waits s e r f = ground (arith, e, f)

abbrev pub iosb_of : Option Request → ℕ
iosb_of none = 0
iosb_of (some r) = r.iosb

pub parks-Awaits :
    (s : System) (r p : Request)
    → IsFree s r.iosb
    → r.iosb ≡ p.iosb
    → Awaits (record s { world = park r s.world; announcing = r ∷ s.announcing }) p
unfolding park
parks-Awaits s r p free e = record {
  block_in = omega (arith, free.exists_in, e);
  block = inr (inl e);
  unclaimed = subst (λ i. All (λ (q : Request × ℕ). q.0.iosb ≢ i) s.claimed) e (free.not_claimed);
  kept = subst (λ i. All (λ (q : Request). q.iosb ≢ i) s.cancelling) e (free.not_cancelling);
}

-- The block of another request is written.
other_block :
    (blocks : List StatusBlock) (i : ℕ) (b : StatusBlock) (r : Request) (announcing : List Request)
    → i ≢ r.iosb
    → (get_elem? blocks r.iosb ≡ some waiting) ⊎ Among r.iosb announcing
    → (get_elem? (set blocks i b) r.iosb ≡ some waiting) ⊎ Among r.iosb announcing
other_block blocks i b r announcing ne (inl e) = inl (get_elem?-set_ne blocks b ne ∙ e)
other_block blocks i b r announcing ne (inr a) = inr a

pub announced :
    (blocks : List StatusBlock) (before after : List Request) (r p : Request)
    → (r.iosb ≡ p.iosb → r.iosb < length blocks)
    → (get_elem? blocks p.iosb ≡ some waiting) ⊎ Among p.iosb (before ++ (r ∷ after))
    → (get_elem? (set blocks r.iosb waiting) p.iosb ≡ some waiting) ⊎ Among p.iosb (before ++ after)
announced blocks before after r p inside h = elim (Bool-cases (r.iosb == p.iosb)) [
  | inl q ↦
      let same = (==_iff r.iosb p.iosb).0 q in
      inl (
        ap (λ i. get_elem? (set blocks r.iosb waiting) i) (sym same)
        ∙ get_elem?-set_self blocks r.iosb waiting (inside same))
  | inr q ↦ elsewhere (λ e. ground (arith, q, e)) h
]
  where
    elsewhere :
        r.iosb ≢ p.iosb
        → (get_elem? blocks p.iosb ≡ some waiting) ⊎ Among p.iosb (before ++ (r ∷ after))
        → (get_elem? (set blocks r.iosb waiting) p.iosb ≡ some waiting)
          ⊎ Among p.iosb (before ++ after)
    elsewhere ne (inl e) = inl (get_elem?-set_ne blocks waiting ne ∙ e)
    elsewhere ne (inr a) = inr (Among-remove p.iosb before after r ne a)

claim_idle : (w : World) → (claim w).1.parked ≡ none
claim_idle w = elim (Option-cases w.parked) [
  | inl e ↦ unfold claim in rw e refl
  | inr (r, e) ↦ unfold claim in rw e refl
]

pub claimed-Waits :
    (s : System) (o : Option Request) (w : World)
    → claim s.world ≡ (o, w)
    → (in_flight : List ℕ) (claimed : List (Request × ℕ)) (cancelling : List Request)
    → Waits
        (record s { world = w; in_flight = in_flight; claimed = claimed; cancelling = cancelling })
claimed-Waits s o w e in_flight claimed cancelling =
    idle-Waits
      (record s { world = w; in_flight = in_flight; claimed = claimed; cancelling = cancelling })
      (sym (ap (λ (c : Option Request × World). c.1.parked) e) ∙ claim_idle s.world)

-- A step that leaves the read that is parked and the statuses.
pub kept-Waits :
    (s : System) (w : World) (in_flight : List ℕ)
    → w.parked ≡ s.world.parked
    → w.blocks ≡ s.world.blocks
    → Waits s
    → Waits (record s { world = w; in_flight = in_flight })
kept-Waits s w in_flight same blocks h r e =
    let a = h r (sym same ∙ e) in
    record {
      block_in = omega (arith, a.block_in, ap length blocks);
      block =
          subst (λ l. (get_elem? l r.iosb ≡ some waiting) ⊎ Among r.iosb s.announcing) (sym blocks)
            a.block;
      unclaimed = a.unclaimed;
      kept = a.kept;
    }

-- A write of the block of another request than the one that is parked.
pub written-Awaits :
    (s : System) (w : World) (i : ℕ) (b : StatusBlock) (p : Request)
    → w.blocks ≡ set s.world.blocks i b
    → i ≢ p.iosb
    → Awaits s p
    → (claimed : List (Request × ℕ)) (cancelling : List Request)
    → All (λ (q : Request × ℕ). q.0.iosb ≢ p.iosb) claimed
    → All (λ (q : Request). q.iosb ≢ p.iosb) cancelling
    → Awaits (record s { world = w; claimed = claimed; cancelling = cancelling }) p
written-Awaits s w i b p e ne a claimed cancelling unclaimed kept = record {
  block_in = omega (arith, a.block_in, ap length e, length-set s.world.blocks i b);
  block =
      subst (λ l. (get_elem? l p.iosb ≡ some waiting) ⊎ Among p.iosb s.announcing) (sym e)
        (other_block s.world.blocks i b p s.announcing ne a.block);
  unclaimed = unclaimed;
  kept = kept;
}

pub set_status-Waits :
    (s : System) (status : Status) (iosb : ℕ)
    → IsFree s iosb
    → Waits s
    → Waits (record s { world = set_status status iosb s.world })
set_status-Waits s status iosb free h p e =
    let w = s.world in
    let old = sym (set_status-parked status iosb w) ∙ e in
    let a = h p old in
    let ne = free.not_parked p old in
    let (objects, buffers, ready, block, size) = set_status_keeps status iosb p.iosb w ne in
    record {
      block_in = omega (arith, a.block_in, size);
      block = same block a.block;
      unclaimed = a.unclaimed;
      kept = a.kept;
    }
  where
    same :
        {o o' : Option StatusBlock}
        → o' ≡ o
        → (o ≡ some waiting) ⊎ Among p.iosb s.announcing
        → (o' ≡ some waiting) ⊎ Among p.iosb s.announcing
    same f (inl g) = inl (f ∙ g)
    same f (inr g) = inr g

abbrev pub Delivered : System → List (Request × ℕ) → Option World → Type 0
Delivered s claimed none = Unit {0}
Delivered s claimed (some w) = Waits (record s { world = w; claimed = claimed })

pub deliver-Waits :
    (s : System) (before after : List (Request × ℕ)) (r : Request) (ch : ℕ)
    → s.claimed ≡ before ++ ((r, ch) ∷ after)
    → Waits s
    → Delivered s (before ++ after) (deliver r ch s.world)
unfolding deliver
deliver-Waits s before after r ch f h = elim (Option-cases (ascii_to_scan ch)) [
  | inl c ↦ rw (deliver, c) tt
  | inr (code, c) ↦ rw (deliver_lem r ch code s.world c) (λ p e.
      let a = h p e in
      let unclaimed = subst (λ l. All (λ (q : Request × ℕ). q.0.iosb ≢ p.iosb) l) f a.unclaimed in
      written-Awaits s (delivered r code s.world) r.iosb
        (record { information = 12; status = success }) p refl
        (All-middle (λ (q : Request × ℕ). q.0.iosb ≢ p.iosb) before after (r, ch) unclaimed) a
        (before ++ after) s.cancelling
        (All-remove (λ (q : Request × ℕ). q.0.iosb ≢ p.iosb) before after (r, ch) unclaimed) a.kept)
]
