-- ===== src/Events/Keyboard.antt =====
-- libs/ntdll/io.c: the life of a parked keyboard read.
use nloader.Base.{
  ℕ, ◌∷◌, ◌<◌, ◌≡◌, ◌≢◌, refl, ap, ◌∙◌, true, Option, none, some, List, [], ◌∷◌, arith, length,
  get_elem?, set, length-set, get_elem?-set_self, get_elem?-set_ne,
}
use nloader.Scancodes.{ascii_to_scan}
use nloader.Events.{
  success, pending, Event, event, KeyData, StatusBlock, Request, World, set_event, deliver,
  pump_read, pump_complete, pump, read_keyboard, key_data_size,
}
use nloader.Events.Order.{set_event-signaled, get_elem?-bound}

pub deliver_lem :
    (r : Request) (ch code : ℕ) (w : World)
    → ascii_to_scan ch ≡ some code
    → deliver r ch w
      ≡ some (record w {
        buffers =
            set w.buffers r.buffer
              (record { unit = r.unit_id; make_code = code; key_break = true });
        blocks = set w.blocks r.iosb (record { information = 12; status = success });
        objects = (set_event r.completion w.objects).1;
      })
unfolding deliver
deliver_lem r ch code w e = rw (deliver, e) refl

-- A read that finds no byte is parked and pending. When a byte is ready later, the next pump
-- completes it: the record, the status block and the event of the request say so, the request is
-- gone and the byte is consumed.
pub record IsCompleted (r : Request) (ch h : ℕ) (e : Event) (rest : List ℕ) (result : Option World)
    : Type 0 where
  pub after : World
  pub returns : result ≡ some after
  pub code : ℕ
  pub scanned : ascii_to_scan ch ≡ some code
  pub filled :
      get_elem? after.buffers r.buffer
      ≡ some (record { unit = r.unit_id; make_code = code; key_break = true })
  pub reported :
      get_elem? after.blocks r.iosb ≡ some (record { information = 12; status = success })
  pub is_signaled : get_elem? after.objects h ≡ some (event (record e { signaled = 1 }))
  pub idle : after.parked ≡ none
  pub consumed : after.ready ≡ rest

-- The indices of a request are those of a world, and its event is `e`, at `h`.
pub record Fits (r : Request) (h : ℕ) (e : Event) (w : World) : Type 0 where
  pub buffer_in : r.buffer < length w.buffers
  pub block_in : r.iosb < length w.blocks
  pub completes : r.completion ≡ some h
  pub event_in : get_elem? w.objects h ≡ some (event e)

pub complete-IsCompleted :
    (r : Request) (ch code h : ℕ) (e : Event) (w : World)
    → Fits r h e w
    → w.parked ≡ none
    → ascii_to_scan ch ≡ some code
    → IsCompleted r ch h e w.ready (deliver r ch w)
complete-IsCompleted r ch code h e w f p c =
    let signaled = set_event-signaled h e w.objects f.event_in in
    let entry : KeyData = record { unit = r.unit_id; make_code = code; key_break = true } in
    let block : StatusBlock = record { information = 12; status = success } in
    record {
      after = record w {
        buffers = set w.buffers r.buffer entry;
        blocks = set w.blocks r.iosb block;
        objects = (set_event r.completion w.objects).1;
      };
      returns = deliver_lem r ch code w c;
      code = code;
      scanned = c;
      filled = get_elem?-set_self w.buffers r.buffer entry f.buffer_in;
      reported = get_elem?-set_self w.blocks r.iosb block f.block_in;
      is_signaled =
          ap (λ o. get_elem? (set_event o w.objects).1 h) f.completes
          ∙ ap (λ q. get_elem? q.1 h) signaled
          ∙ get_elem?-set_self w.objects h (event (record e { signaled = 1 }))
              (get_elem?-bound w.objects h (event e) f.event_in);
      idle = p;
      consumed = refl;
    }

-- The world after a read was parked.
abbrev pub parked_world : Request → World → World
parked_world r w = record w {
  parked = some r;
  blocks = set w.blocks r.iosb (record { information = 0; status = pending });
}

parked_world-Fits :
    (r : Request) (h : ℕ) (e : Event) (w : World) → Fits r h e w → Fits r h e (parked_world r w)
parked_world-Fits r h e w f = record {
  buffer_in = f.buffer_in;
  block_in = omega (
    arith,
    f.block_in,
    length-set w.blocks r.iosb (record { information = 0; status = pending }),
  );
  completes = f.completes;
  event_in = f.event_in;
}

read_keyboard-parked :
    (r : Request) (w : World)
    → w.ready ≡ []
    → read_keyboard r key_data_size w ≡ some (pending, parked_world r w)
unfolding read_keyboard
read_keyboard-parked r w q = simp q

pump_ready :
    (r : Request) (ch : ℕ) (rest : List ℕ) (w : World)
    → pump (record w { parked = some r; ready = ch ∷ rest })
      ≡ deliver r ch (record w { parked = none; ready = rest })
unfolding pump pump_read pump_complete
pump_ready r ch rest w = refl

-- A keyboard read that finds no byte is parked and returns STATUS_PENDING; whenever bytes are ready
-- later, the first of them but 255, the next pump completes the read: the keyboard record, the
-- status block and the event are set, the byte is consumed, and no read is parked any more.
pub read_keyboard-IsCompleted :
    (r : Request) (ch code h : ℕ) (e : Event) (rest : List ℕ) (w : World)
    → Fits r h e w
    → w.ready ≡ []
    → ascii_to_scan ch ≡ some code
    → (w' : World) × (read_keyboard r key_data_size w ≡ some (pending, w'))
      × (w'.parked ≡ some r)
      × (get_elem? w'.blocks r.iosb ≡ some (record { information = 0; status = pending }))
      × IsCompleted r ch h e rest (pump (record w' { ready = ch ∷ rest }))
read_keyboard-IsCompleted r ch code h e rest w f q c =
    let w' = parked_world r w in
    let g = parked_world-Fits r h e w f in
    (
      w',
      read_keyboard-parked r w q,
      refl,
      get_elem?-set_self w.blocks r.iosb (record { information = 0; status = pending }) f.block_in,
      rw (pump_ready r ch rest w') (
          complete-IsCompleted r ch code h e (record w' { parked = none; ready = rest })
            (record {
              buffer_in = g.buffer_in;
              block_in = g.block_in;
              completes = g.completes;
              event_in = g.event_in;
            })
            refl c),
    )

pub pump_idle : (w : World) → w.parked ≡ none → pump w ≡ some w
unfolding pump pump_read
pump_idle w e = rw e refl

-- A second read that is parked takes the place of the first, whose status block stays pending
-- whatever key is pressed: with a block of its own the first read is never completed by a pump.
pub read_keyboard-replaces :
    (r s : Request) (ch code : ℕ) (rest : List ℕ) (w : World)
    → w.ready ≡ []
    → w.parked ≡ some r
    → s.iosb ≢ r.iosb
    → get_elem? w.blocks r.iosb ≡ some (record { information = 0; status = pending })
    → ascii_to_scan ch ≡ some code
    → (w' : World) × (after : World) × (read_keyboard s key_data_size w ≡ some (pending, w'))
      × (pump (record w' { ready = ch ∷ rest }) ≡ some after)
      × (after.parked ≡ none)
      × (get_elem? after.blocks r.iosb ≡ some (record { information = 0; status = pending }))
read_keyboard-replaces r s ch code rest w q p d b c =
    let w' = parked_world s w in
    let v : World = record w' { parked = none; ready = rest } in
    (
      w',
      record v {
        buffers =
            set v.buffers s.buffer
              (record { unit = s.unit_id; make_code = code; key_break = true });
        blocks = set v.blocks s.iosb (record { information = 12; status = success });
        objects = (set_event s.completion v.objects).1;
      },
      read_keyboard-parked s w q,
      pump_ready s ch rest w' ∙ deliver_lem s ch code v c,
      refl,
      get_elem?-set_ne v.blocks (record { information = 12; status = success }) d
          ∙ get_elem?-set_ne w.blocks (record { information = 0; status = pending }) d
          ∙ b,
    )
