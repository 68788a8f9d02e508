-- ===== src/Radio/Order.antt =====
-- What becomes of the datagrams of the frames that arrive: their order, and what is lost.
use microbit_dal.Prelude.{
  ℕ, ◌+◌, ◌%◌, ◌≡◌, refl, sym, ap, subst, ◌∙◌, Bool, true, false, Option, none, some, List, [], ◌∷◌,
  ◌++◌, leb, ◌==◌, if◌then◌else◌, arith, append-nil, append_assoc, if-both,
}
use microbit_dal.Radio.{
  make_event, Status, FrameBuffer, Event, Radio, Effect, maximum_rx_buffers, arrive, irq_handler,
  set_rssi, queue_rx_buf, queue_frame, rssi_byte, recv, room, datagram_received,
  event_packet_received, handle, idle_round, handle_taken, recv_queue, recv_packet,
}

abbrev pub datagrams_of : List FrameBuffer → List FrameBuffer
datagrams_of [] = []
datagrams_of (f ∷ fs) = if f.protocol == 1 then f ∷ datagrams_of fs else datagrams_of fs

-- The datagrams on their way to the user.
abbrev pub pending : Radio → List FrameBuffer
pending r = r.datagrams ++ datagrams_of r.rx_queue

-- The first list is the second less some of its elements.
pub data Sublist {ℓ} {A : Type ℓ} : List A → List A → Type ℓ where
  done : Sublist [] []
  keep : (x : A) (xs ys : List A) → Sublist xs ys → Sublist (x ∷ xs) (x ∷ ys)
  skip : (x : A) (xs ys : List A) → Sublist xs ys → Sublist xs (x ∷ ys)

module _ {ℓ} {A : Type ℓ} where
  pub sublist_refl : (xs : List A) → Sublist xs xs
  sublist_refl [] = Sublist.done
  sublist_refl (x ∷ xs) = Sublist.keep x xs xs (sublist_refl xs)

  pub sublist_append :
      (ps qs us vs : List A) → Sublist ps qs → Sublist us vs → Sublist (ps ++ us) (qs ++ vs)
  sublist_append _ _ us vs Sublist.done q = q
  sublist_append _ _ us vs (Sublist.keep x xs ys p) q =
      Sublist.keep x (xs ++ us) (ys ++ vs) (sublist_append xs ys us vs p q)
  sublist_append ps _ us vs (Sublist.skip x xs ys p) q =
      Sublist.skip x (ps ++ us) (ys ++ vs) (sublist_append ps ys us vs p q)

  pub sublist_nil : (xs : List A) → Sublist [] xs
  sublist_nil [] = Sublist.done
  sublist_nil (x ∷ xs) = Sublist.skip x [] xs (sublist_nil xs)

  pub sublist_trans : (ps qs us : List A) → Sublist ps qs → Sublist qs us → Sublist ps us
  sublist_trans ps qs _ p (Sublist.skip z _ zs q) =
      Sublist.skip z ps zs (sublist_trans ps qs zs p q)
  sublist_trans ps _ _ p Sublist.done = p
  sublist_trans _ _ _ (Sublist.keep x xs ys p) (Sublist.keep _ _ zs q) =
      Sublist.keep x xs zs (sublist_trans xs ys zs p q)
  sublist_trans ps _ _ (Sublist.skip x xs ys p) (Sublist.keep _ _ zs q) =
      Sublist.skip x ps zs (sublist_trans ps ys zs p q)

pub datagrams_of-append :
    (fs gs : List FrameBuffer) → datagrams_of (fs ++ gs) ≡ datagrams_of fs ++ datagrams_of gs
datagrams_of-append [] gs = refl
datagrams_of-append (f ∷ fs) gs = ground (arith, datagrams_of-append fs gs)

-- A step: a frame arrives (with its signal strength, and whether there is memory), the processor is
-- idle for a round at some time, or the user takes a datagram.
pub data Step : Type 0 where
  frame : FrameBuffer → Bool → ℕ → Bool → Step
  idle : ℕ → Step
  take_one : Step

abbrev pub of_option : Option FrameBuffer → List FrameBuffer
of_option none = []
of_option (some f) = f ∷ []

module _ (registered : Event → Bool) (ble : Bool) (padding : List ℕ) where
  -- The radio behind a step, and the datagram that the user gets.
  abbrev pub step : Step → Radio → Radio × List FrameBuffer
  step (Step.frame f good sample memory) r = (arrive f good sample memory r, [])
  step (Step.idle stamp) r = ((idle_round registered ble padding stamp r).0, [])
  step Step.take_one r = let (r', f) = recv_packet r in (r', of_option f)

  abbrev pub run : List Step → Radio → Radio × List FrameBuffer
  run [] r = (r, [])
  run (s ∷ ss) r = let (r', got) = step s r in let (r'', later) = run ss r' in (r'', got ++ later)

-- The frames of a run that pass the checksum, with the signal strength they are queued with.
abbrev pub arrived : List Step → List FrameBuffer
arrived [] = []
arrived (Step.frame f good sample memory ∷ ss) =
    if good then record f { rssi = sample } ∷ arrived ss else arrived ss
arrived (Step.idle stamp ∷ ss) = arrived ss
arrived (Step.take_one ∷ ss) = arrived ss

set_rssi_lem : (n : ℕ) (r : Radio) → r.initialised ≡ true → (set_rssi n r).0 ≡ record r { rssi = n }
unfolding set_rssi
set_rssi_lem n r h =
    let pick : Bool → Radio × Status =
      λ b. if b then (record r { rssi = n }, Status.ok) else (r, Status.not_supported) in
    ap (λ b. (pick b).0) h

arrived-cons : (s : Step) (ss : List Step) → arrived (s ∷ ss) ≡ arrived (s ∷ []) ++ arrived ss
arrived-cons (Step.frame f true sample memory) ss = refl
arrived-cons (Step.frame f false sample memory) ss = refl
arrived-cons (Step.idle stamp) ss = refl
arrived-cons Step.take_one ss = refl

sublist_more : (ps qs : List FrameBuffer) → Sublist ps (ps ++ qs)
sublist_more ps qs =
    subst (λ us. Sublist us (ps ++ qs)) (append-nil ps)
      (sublist_append ps ps [] qs (sublist_refl ps) (sublist_nil qs))

-- What one step keeps: the radio stays on, and the datagrams in it are some of those there were.
abbrev Keeps : List FrameBuffer → Radio → Radio × List FrameBuffer → Type 0
Keeps new r (r', got) = (r'.initialised ≡ true) × Sublist (got ++ pending r') (pending r ++ new)

queue_frame-Keeps :
    (memory : Bool) (r : Radio) (f : FrameBuffer)
    → r.initialised ≡ true
    → Keeps (datagrams_of (record f { rssi = r.rssi } ∷ [])) r ((queue_frame memory r f).0, [])
unfolding queue_frame rssi_byte
queue_frame-Keeps memory r f h =
    let marked = record f { rssi = if r.initialised then r.rssi else 22 } in
    let new = datagrams_of (record f { rssi = r.rssi } ∷ []) in
    let Q : Radio × Status → Type 0 = λ x. Keeps new r (x.0, []) in
    let same : (if r.initialised then r.rssi else 22) ≡ r.rssi =
      ap (λ b. if b then r.rssi else 22) h in
    let queued : r.datagrams ++ datagrams_of (r.rx_queue ++ (marked ∷ [])) ≡ pending r ++ new =
      ap (λ fs. r.datagrams ++ fs) (datagrams_of-append r.rx_queue (marked ∷ []))
      ∙ sym (append_assoc r.datagrams (datagrams_of r.rx_queue) (datagrams_of (marked ∷ [])))
      ∙ ap (λ k. pending r ++ datagrams_of (record f { rssi = k } ∷ [])) same in
    let lost : Keeps new r (r, []) = (h, sublist_more (pending r) new) in
    if-both Q (leb maximum_rx_buffers r.queue_depth) lost (
      if-both Q memory
        (
          h,
          subst (λ ps. Sublist ps (pending r ++ new)) (sym queued)
              (sublist_refl (pending r ++ new)),
        )
        (h, sublist_more (pending r) new))

recv_case :
    (q : List FrameBuffer) (r : Radio)
    → r.initialised ≡ true
    → r.datagrams ≡ q
    → let x : Radio × Option FrameBuffer = elim q [
      | [] ↦ (r, none)
      | f ∷ fs ↦ (record r { datagrams = fs }, some f)
    ] in
      Keeps [] r (x.0, of_option (x.1))
recv_case [] r h e = (h, sublist_more (pending r) [])
recv_case (f ∷ fs) r h e = (
  h,
  subst (λ q. Sublist (f ∷ (fs ++ datagrams_of r.rx_queue)) ((q ++ datagrams_of r.rx_queue) ++ []))
      (sym e) (sublist_more (f ∷ (fs ++ datagrams_of r.rx_queue)) []),
)

recv-Keeps :
    (r : Radio) → r.initialised ≡ true → Keeps [] r ((recv_packet r).0, of_option (recv_packet r).1)
unfolding recv_packet
recv-Keeps r h = recv_case r.datagrams r h refl

-- The radio `r` is the one without the frame `f` that is handled.
handle_case :
    (b : Bool) (f : FrameBuffer) (r : Radio) (es : List Effect) (y : Radio × List Effect)
    → r.initialised ≡ true
    → (y.0).initialised ≡ true
    → pending (y.0) ≡ pending r
    → let x : Radio × List Effect =
        if b
        then (if room r.datagrams
            then (record r { datagrams = r.datagrams ++ (f ∷ []) }, es)
            else (r, []))
        else y in
      ((x.0).initialised ≡ true)
      × Sublist
          (pending (x.0))
          (r.datagrams ++ (if b then f ∷ datagrams_of r.rx_queue else datagrams_of r.rx_queue))
handle_case true f r es y h on e =
    let fs = datagrams_of r.rx_queue in
    let all = r.datagrams ++ (f ∷ fs) in
    if-both (λ (x : Radio × List Effect). ((x.0).initialised ≡ true) × Sublist (pending (x.0)) all)
      (room r.datagrams)
      (
        h,
        subst (λ ps. Sublist ps all) (sym (append_assoc r.datagrams (f ∷ []) fs))
            (sublist_refl all),
      )
      (
        h,
        sublist_append r.datagrams r.datagrams fs (f ∷ fs) (sublist_refl r.datagrams)
            (Sublist.skip f fs fs (sublist_refl fs)),
      )
handle_case false f r es y h on e =
    (on, subst (λ ps. Sublist ps (pending r)) (sym e) (sublist_refl (pending r)))

module _ (registered : Event → Bool) (ble : Bool) (padding : List ℕ) where
  handle-Keeps :
      (stamp : ℕ) (f : FrameBuffer) (whole r : Radio)
      → r.initialised ≡ true
      → let x = handle registered ble padding stamp f whole r in
        ((x.0).initialised ≡ true)
        × Sublist (pending (x.0)) (r.datagrams ++ datagrams_of (f ∷ r.rx_queue))
  unfolding handle datagram_received event_packet_received
  handle-Keeps stamp f whole r h =
      let stored = record r { datagrams = r.datagrams ++ (f ∷ []) } in
      handle_case (f.protocol == 1) f r (make_event registered ble padding stamp 29 1 stored)
        (if f.protocol == 2
          then event_packet_received registered ble padding f r
          else (r, make_event registered ble padding stamp 30 f.protocol whole))
        h (if-both (λ (y : Radio × List Effect). (y.0).initialised ≡ true) (f.protocol == 2) h h)
        (if-both (λ (y : Radio × List Effect). pending (y.0) ≡ pending r) (f.protocol == 2) refl
          refl)

  round_case :
      (stamp : ℕ) (q : List FrameBuffer) (r : Radio)
      → r.initialised ≡ true
      → r.rx_queue ≡ q
      → let (r', taken) = recv_queue q r in
        Keeps [] r ((handle_taken registered ble padding stamp taken r r').0, [])
  unfolding handle_taken
  round_case stamp [] r h e = (h, sublist_more (pending r) [])
  round_case stamp (f ∷ fs) r h e =
      let r' = record r { rx_queue = fs; queue_depth = (r.queue_depth + 255) % 256 } in
      let left = pending (handle registered ble padding stamp f r r').0 in
      let (on, kept) = handle-Keeps stamp f r r' h in
      (
        on,
        subst (λ q. Sublist left ((r.datagrams ++ datagrams_of q) ++ [])) (sym e)
            (sublist_trans left (r.datagrams ++ datagrams_of (f ∷ fs))
              ((r.datagrams ++ datagrams_of (f ∷ fs)) ++ []) kept
              (sublist_more (r.datagrams ++ datagrams_of (f ∷ fs)) [])),
      )

  step-Keeps :
      (s : Step) (r : Radio)
      → r.initialised ≡ true
      → Keeps (datagrams_of (arrived (s ∷ []))) r (step registered ble padding s r)
  unfolding arrive irq_handler queue_rx_buf idle_round recv
  step-Keeps (Step.frame f true sample memory) r h =
      let full = record r { rx_buf = some f } in
      let new = datagrams_of (record f { rssi = sample } ∷ []) in
      subst (λ (x : Radio). Keeps new r ((queue_rx_buf memory x).0, []))
        (sym (set_rssi_lem sample full h))
        (queue_frame-Keeps memory (record full { rssi = sample }) f h)
  step-Keeps (Step.frame f false sample memory) r h =
      let full = record r { rx_buf = some f } in
      subst (λ (x : Radio). Keeps [] r (x, [])) (sym (set_rssi_lem 0 full h))
        (h, sublist_more (pending r) [])
  step-Keeps (Step.idle stamp) r h = round_case stamp r.rx_queue r h refl
  step-Keeps Step.take_one r h = recv-Keeps r h

  -- In every run of a radio that is on, in which frames arrive, rounds of `idleTick` and `recv` of
  -- datagrams alternate in any order: what the user gets, and then what is still in the radio, is
  -- what was in it and then the datagrams that arrived intact, in that order, less those dropped.
  pub datagrams_in_order :
      (ss : List Step) (r : Radio)
      → r.initialised ≡ true
      → let (r', got) = run registered ble padding ss r in
        Sublist (got ++ pending r') (pending r ++ datagrams_of (arrived ss))
  datagrams_in_order [] r h = sublist_more (pending r) []
  datagrams_in_order (s ∷ ss) r h =
      let (r', got) = step registered ble padding s r in
      let (r'', later) = run registered ble padding ss r' in
      let (on, kept) = step-Keeps s r h in
      let one = datagrams_of (arrived (s ∷ [])) in
      let rest = datagrams_of (arrived ss) in
      let target : (pending r ++ one) ++ rest ≡ pending r ++ datagrams_of (arrived (s ∷ ss)) =
        append_assoc (pending r) one rest
        ∙ ap (λ fs. pending r ++ fs)
            (sym (datagrams_of-append (arrived (s ∷ [])) (arrived ss))
              ∙ sym (ap datagrams_of (arrived-cons s ss))) in
      subst (λ fs. Sublist ((got ++ later) ++ pending r'') fs) target
        (subst (λ fs. Sublist fs ((pending r ++ one) ++ rest))
          (sym (append_assoc got later (pending r'')))
          (sublist_trans (got ++ (later ++ pending r'')) (got ++ (pending r' ++ rest))
            ((pending r ++ one) ++ rest)
            (sublist_append got got (later ++ pending r'') (pending r' ++ rest) (sublist_refl got)
              (datagrams_in_order ss r' on))
            (subst (λ fs. Sublist fs ((pending r ++ one) ++ rest))
              (append_assoc got (pending r') rest)
              (sublist_append (got ++ pending r') (pending r ++ one) rest rest kept
                (sublist_refl rest)))))
