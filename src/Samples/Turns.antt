-- ===== src/Samples/Turns.antt =====
-- The messages of a handshake as datagrams between the two programs.
use go_matter.Base.{
  [], ℕ, suc, ◌≡◌, refl, ◌∷◌, ◌++◌, Option, none, some, Result, ok, err, wrap, wrap-ok, bind-ok,
  ok-injective, ap, ◌∙◌,
}
use go_matter.Base.Bytes.{Bytes}
use go_matter.Message.Frame.{Frame}
use go_matter.Commissioning.Pase
use go_matter.Commissioning.Pase.{Suite, Randomness}
use go_matter.Commissioning.Commissioner
use go_matter.Commissioning.Commissioner.{Commissioner, new_commissioner}
use go_matter.Commissioning.Commissionee
use go_matter.Commissioning.Commissionee.{Commissionee}
use go_matter.Commissioning.Handshake.{
  settled, over_wire, to_controller, to_device, answer, agree, handshake,
}
use go_matter.Transport.{send, start}
use go_matter.Samples.{send_message}
use go_matter.Samples.Controller
use go_matter.Samples.Controller.{Controller, sending}
use go_matter.Samples.Device
use go_matter.Samples.Device.{Device, replied}
use go_matter.Samples.Network.{Host, controller_host, device_host, turn, turns}

settled-ok :
    {S A : Type 0} (x : S × Result Pase.Error A) (s : S) (a : A)
    → settled x ≡ ok (s, a)
    → x ≡ (s, ok a)
settled-ok (s', ok a') s a h = cc
settled-ok (s', err e) s a h = cc

module _ (suite : Suite) (draws : ℕ → Randomness) where
  -- A frame that a side accepts over the wire is a datagram, whose arrival makes the program do
  -- what the side does, and write the datagram of its reply.
  device_accepts :
      (d : Device Host) (f : Frame) (c : Commissionee) (o : Option Frame)
      → to_device suite (draws d.handled) d.commissionee f ≡ ok (c, o)
      → (b : Bytes) × (send f ≡ ok b)
        × (start (some (Device.handler suite draws)) ((b, controller_host) ∷ []) d ≡ record {
          commissionee = c;
          peer = some controller_host;
          sent = d.sent ++ replied (some controller_host) (ok o);
          handled = suc d.handled;
        })
  unfolding to_device over_wire start Device.handler
  device_accepts d f c o h =
      let (g, carried, h') = bind-ok (over_wire f) _ h in
      let (b, sent, h'') = bind-ok (wrap _ (send f)) _ carried in
      let handled =
        settled-ok (Commissionee.handle_message suite g (draws d.handled) d.commissionee) c o h' in
      (b, wrap-ok _ _ sent, rw (wrap-ok _ _ h'', handled))

  controller_accepts :
      (c : Controller Host) (f : Frame) (k : Commissioner) (out : Frame)
      → to_controller suite (draws c.called) c.commissioner f ≡ ok (k, out)
      → (b : Bytes) × (send f ≡ ok b)
        × (start (some (Controller.handler suite draws device_host)) ((b, device_host) ∷ []) c
            ≡ record {
              commissioner = k;
              sent = c.sent ++ sending device_host (ok out);
              called = suc c.called;
            })
  unfolding to_controller over_wire start Controller.handler
  controller_accepts c f k out h =
      let (g, carried, h') = bind-ok (over_wire f) _ h in
      let (b, sent, h'') = bind-ok (wrap _ (send f)) _ carried in
      let handled =
        settled-ok (Commissioner.handle_message suite g (draws c.called) c.commissioner) k out h' in
      (b, wrap-ok _ _ sent, rw (wrap-ok _ _ h'', handled))

module _ (suite : Suite) (cr dr : ℕ → Randomness) where
  -- Turns in which one frame is delivered.
  device_turn :
      (k : Commissioner) (n m : ℕ) (peer : Option Host) (d : Commissionee) (f : Frame)
      (d' : Commissionee) (o : Option Frame)
      → to_device suite (dr m) d f ≡ ok (d', o)
      → turn suite cr dr device_host (
        record { commissioner = k; sent = sending device_host (ok f); called = n },
        record { commissionee = d; peer = peer; sent = []; handled = m },
      )
        ≡ (
          record { commissioner = k; sent = []; called = n },
          record {
            commissionee = d';
            peer = some controller_host;
            sent = replied (some controller_host) (ok o);
            handled = suc m;
          },
        )
  unfolding turn sending send_message
  device_turn k n m peer d f d' o h =
      let (b, wrote, ran) =
        device_accepts suite dr (record { commissionee = d; peer = peer; sent = []; handled = m }) f
          d' o h in
      rw (wrote, ran)

  controller_turn :
      (k : Commissioner) (n m : ℕ) (d : Commissionee) (f : Frame) (k' : Commissioner) (out : Frame)
      → to_controller suite (cr n) k f ≡ ok (k', out)
      → turn suite cr dr controller_host (
        record { commissioner = k; sent = []; called = n },
        record {
          commissionee = d;
          peer = some controller_host;
          sent = replied (some controller_host) (ok (some f));
          handled = m;
        },
      )
        ≡ (
          record { commissioner = k'; sent = sending device_host (ok out); called = suc n },
          record { commissionee = d; peer = some controller_host; sent = []; handled = m },
        )
  unfolding turn replied send_message
  controller_turn k n m d f k' out h =
      let (b, wrote, ran) =
        controller_accepts suite cr (record { commissioner = k; sent = []; called = n }) f k' out
          h in
      rw (wrote, ran)

  answered : (o : Option Frame) (f : Frame) → answer o ≡ ok f → o ≡ some f
  answered none f h = cc
  answered (some g) f h = cc

  five_turns :
      (n0 n1 n2 n3 n4 n5 : Controller Host × Device Host)
      → turn suite cr dr device_host n0 ≡ n1
      → turn suite cr dr controller_host n1 ≡ n2
      → turn suite cr dr device_host n2 ≡ n3
      → turn suite cr dr controller_host n3 ≡ n4
      → turn suite cr dr device_host n4 ≡ n5
      → turns suite cr dr
          (device_host ∷ controller_host ∷ device_host ∷ controller_host ∷ device_host ∷ [])
          n0
        ≡ n5
  unfolding turns
  five_turns n0 n1 n2 n3 n4 n5 e1 e2 e3 e4 e5 = rw (e1, e2, e3, e4, e5)

  begun_lem :
      (c c' : Commissioner) (f : Frame)
      → Commissioner.start_pase 12345678 (cr 0) c ≡ (c', ok f)
      → Controller.start_pase suite cr device_host (Controller.new_controller c)
        ≡ record { commissioner = c'; sent = sending device_host (ok f); called = 1 }
  unfolding Controller.start_pase
  begun_lem c c' f e = rw e

  -- The messages of a handshake that completes, and the states between them.
  record Exchange (c c' : Commissioner) (d d' : Commissionee) : Type 0 where
    c1 : Commissioner
    c2 : Commissioner
    d1 : Commissionee
    d2 : Commissionee
    request : Frame
    response : Frame
    pake1 : Frame
    pake2 : Frame
    pake3 : Frame
    last : Option Frame
    begins : Commissioner.start_pase 12345678 (cr 0) c ≡ (c1, ok request)
    takes_request : to_device suite (dr 0) d request ≡ ok (d1, some response)
    takes_response : to_controller suite (cr 1) c1 response ≡ ok (c2, pake1)
    takes_pake1 : to_device suite (dr 1) d1 pake1 ≡ ok (d2, some pake2)
    takes_pake2 : to_controller suite (cr 2) c2 pake2 ≡ ok (c', pake3)
    takes_pake3 : to_device suite (dr 2) d2 pake3 ≡ ok (d', last)

  handshake-Exchange :
      (c c' : Commissioner) (d d' : Commissionee)
      → handshake suite c d 12345678 (cr 0) (cr 1) (cr 2) (dr 0) (dr 1) (dr 2) ≡ ok (c', d')
      → Exchange c c' d d'
  unfolding handshake agree
  handshake-Exchange c c' d d' h =
      let ((c1, request), s1, h1) =
        bind-ok (settled (Commissioner.start_pase 12345678 (cr 0) c)) _ h in
      let ((d1, o1), s2, h2) = bind-ok (to_device suite (dr 0) d request) _ h1 in
      let (response, s3, h3) = bind-ok (answer o1) _ h2 in
      let ((c2, pake1), s4, h4) = bind-ok (to_controller suite (cr 1) c1 response) _ h3 in
      let ((d2, o2), s5, h5) = bind-ok (to_device suite (dr 1) d1 pake1) _ h4 in
      let (pake2, s6, h6) = bind-ok (answer o2) _ h5 in
      let ((c3, pake3), s7, h7) = bind-ok (to_controller suite (cr 2) c2 pake2) _ h6 in
      let ((d3, o3), s8, h8) = bind-ok (to_device suite (dr 2) d2 pake3) _ h7 in
      let ends : (c3, d3) ≡ (c', d') = ok-injective h8 in
      record {
        c1 = c1;
        c2 = c2;
        d1 = d1;
        d2 = d2;
        request = request;
        response = response;
        pake1 = pake1;
        pake2 = pake2;
        pake3 = pake3;
        last = o3;
        begins = settled-ok _ c1 request s1;
        takes_request = rw (← answered o1 response s3) s2;
        takes_response = s4;
        takes_pake1 = rw (← answered o2 pake2 s6) s5;
        takes_pake2 = s7 ∙ ap (λ (x : Commissioner × Commissionee). ok (x.0, pake3)) ends;
        takes_pake3 = s8 ∙ ap (λ (x : Commissioner × Commissionee). ok (x.1, o3)) ends;
      }

  -- The five messages are delivered in five turns.
  pub turns-handshake :
      (c c' : Commissioner) (d d' : Commissionee)
      → handshake suite c d 12345678 (cr 0) (cr 1) (cr 2) (dr 0) (dr 1) (dr 2) ≡ ok (c', d')
      → let net =
          turns suite cr dr
            (device_host ∷ controller_host ∷ device_host ∷ controller_host ∷ device_host ∷ [])
            (
              Controller.start_pase suite cr device_host (Controller.new_controller c),
              Device.new_device d,
            ) in
        (net.0.commissioner ≡ c') × (net.1.commissionee ≡ d')
  turns-handshake c c' d d' h =
      let x = handshake-Exchange c c' d d' h in
      let run =
        five_turns _ _ _ _ _ _
          (device_turn x.c1 1 0 none d x.request x.d1 (some x.response) x.takes_request)
          (controller_turn x.c1 1 1 x.d1 x.response x.c2 x.pake1 x.takes_response)
          (device_turn x.c2 2 1 (some controller_host) x.d1 x.pake1 x.d2 (some x.pake2)
            x.takes_pake1)
          (controller_turn x.c2 2 2 x.d2 x.pake2 c' x.pake3 x.takes_pake2)
          (device_turn c' 3 2 (some controller_host) x.d2 x.pake3 d' x.last x.takes_pake3) in
      rw (begun_lem c x.c1 x.request x.begins, run) (refl, refl)
