-- ===== src/Events/Steps.antt =====
-- libs/ntdll/io.c and sync.c: what the guest's threads do at a time, and the bytes of stdin, as
-- steps in any order. Between its steps a thread holds what the lists of the system say: a pump the
-- byte that it has read, then the request that it has claimed; a read the request that it has
-- parked and not yet announced; a cancellation the request that it has claimed.
use nloader.Base.{
  ℕ, ◌<◌, ◌≡◌, ◌≢◌, Option, none, some, List, [], ◌∷◌, ◌++◌, length, get_elem?, ◌⊎◌, All,
}
use nloader.Events.{
  Status, pending, StatusBlock, Request, World, set_event, reset_event, scan, deliver, claim, park,
  announce, report_cancelled, set_status,
}

pub record System : Type 0 where
  pub world : World
  pub in_flight : List ℕ
  pub claimed : List (Request × ℕ)
  pub announcing : List Request
  pub cancelling : List Request

-- The block of a request that waits.
abbrev pub waiting : StatusBlock
waiting = record { information = 0; status = pending }

-- The block is not one of the request that is parked, and not one that a pump or a cancellation is
-- about to write.
pub record IsFree (s : System) (iosb : ℕ) : Type 0 where
  pub exists_in : iosb < length s.world.blocks
  pub not_parked : (p : Request) → s.world.parked ≡ some p → iosb ≢ p.iosb
  pub not_claimed : All (λ (q : Request × ℕ). q.0.iosb ≢ iosb) s.claimed
  pub not_cancelling : All (λ (q : Request). q.iosb ≢ iosb) s.cancelling

-- A guest gives each call a status block that is free.
pub data Step : System → System → Type 0 where
  arrives :
      (s : System) (ch : ℕ)
      → Step s (record s { world = record (s.world) { ready = s.world.ready ++ (ch ∷ []) } })
  -- A read that finds a byte takes it and delivers it later, like a pump.
  reads_byte :
      (s : System) (r : Request) (ch : ℕ) (rest : List ℕ)
      → IsFree s r.iosb
      → s.world.ready ≡ ch ∷ rest
      → Step s
          (record s { world = record (s.world) { ready = rest }; claimed = (r, ch) ∷ s.claimed })
  -- A read of another size, or the end of a cancellation.
  sets_status :
      (s : System) (status : Status) (iosb : ℕ)
      → IsFree s iosb
      → Step s (record s { world = set_status status iosb s.world })
  parks :
      (s : System) (r : Request)
      → IsFree s r.iosb
      → Step s (record s { world = park r s.world; announcing = r ∷ s.announcing })
  announces :
      (s : System) (before after : List Request) (r : Request)
      → s.announcing ≡ before ++ (r ∷ after)
      → Step s (record s { world = announce r s.world; announcing = before ++ after })
  -- A pump has seen before that a read was parked, which may have changed since.
  takes :
      (s : System) (ch : ℕ) (rest : List ℕ)
      → s.world.ready ≡ ch ∷ rest
      → Step s
          (record s { world = record (s.world) { ready = rest }; in_flight = ch ∷ s.in_flight })
  claims :
      (s : System) (before after : List ℕ) (ch : ℕ) (r : Request) (w : World)
      → s.in_flight ≡ before ++ (ch ∷ after)
      → claim s.world ≡ (some r, w)
      → Step s (record s { world = w; in_flight = before ++ after; claimed = (r, ch) ∷ s.claimed })
  drops :
      (s : System) (before after : List ℕ) (ch : ℕ) (w : World)
      → s.in_flight ≡ before ++ (ch ∷ after)
      → claim s.world ≡ (none, w)
      → Step s (record s { world = w; in_flight = before ++ after })
  delivers :
      (s : System) (before after : List (Request × ℕ)) (r : Request) (ch : ℕ) (w : World)
      → s.claimed ≡ before ++ ((r, ch) ∷ after)
      → deliver r ch s.world ≡ some w
      → Step s (record s { world = w; claimed = before ++ after })
  withdraws :
      (s : System) (r : Request) (w : World)
      → claim s.world ≡ (some r, w)
      → Step s (record s { world = w; cancelling = r ∷ s.cancelling })
  reports :
      (s : System) (before after : List Request) (r : Request)
      → s.cancelling ≡ before ++ (r ∷ after)
      → Step s (record s { world = report_cancelled r s.world; cancelling = before ++ after })
  signals :
      (s : System) (handle : Option ℕ)
      → Step s
          (record s { world = record (s.world) { objects = (set_event handle s.world.objects).1 } })
  resets :
      (s : System) (handle : Option ℕ)
      → Step s (record s {
        world = record (s.world) { objects = (reset_event handle s.world.objects).1 };
      })
  scans :
      (s : System) (handles : List (Option ℕ))
      → Step s
          (record s { world = record (s.world) { objects = (scan handles 0 s.world.objects).1 } })

abbrev pub Among : ℕ → List Request → Type 0
Among i [] = ⊥
Among i (r ∷ rs) = (r.iosb ≡ i) ⊎ Among i rs

-- The request that is parked: its block exists, says that the read is pending or is about to, and no
-- pump or cancellation is about to write it.
pub record Awaits (s : System) (r : Request) : Type 0 where
  pub block_in : r.iosb < length s.world.blocks
  pub block : (get_elem? s.world.blocks r.iosb ≡ some waiting) ⊎ Among r.iosb s.announcing
  pub unclaimed : All (λ (q : Request × ℕ). q.0.iosb ≢ r.iosb) s.claimed
  pub kept : All (λ (q : Request). q.iosb ≢ r.iosb) s.cancelling

abbrev pub Waits : System → Type 0
Waits s = (r : Request) → s.world.parked ≡ some r → Awaits s r
