-- ===== src/Web/Server/Delivery.antt =====
-- The two halves of a broadcast: sending to every client, and unregistering the dead ones.
use zabawheels.Prelude.{
  ℕ, ◌≡◌, refl, sym, ap, ◌∙◌, Bool, true, false, not, ◌&&◌, ◌||◌, Option, none, some, List, [], ◌∷◌,
  ◌++◌, append_assoc, append-nil, arith, Bytes, ◌==◌, ==_iff, if◌then◌else◌, if-elim, if-elim_eq,
  Bool-cases, inl, inr, ◌⊎◌,
}
use zabawheels.Web.Server.{
  SocketCall, sent, closed, Server, has_client, without, unregister_client, unregister_all,
  gets_through, record_call, send_all,
}

pub has_client-without :
    (c d : ℕ) (clients : List ℕ)
    → has_client c (without d clients) ≡ (has_client c clients && not (d == c))
unfolding has_client without
has_client-without c d [] = refl
has_client-without c d (e ∷ clients) = ground (arith, has_client-without c d clients)

has_client-missing :
    (c d : ℕ) (clients : List ℕ)
    → has_client d clients ≡ false
    → has_client c clients ≡ (has_client c clients && not (d == c))
has_client-missing c d clients h = elim (Bool-cases (d == c)) [
  | inl same ↦
      let e : has_client c clients ≡ false =
        ap (λ x. has_client x clients) (sym ((==_iff d c).0 same)) ∙ h in
      rw (same, e) refl
  | inr other ↦ ground (arith, other)
]

has_client-unregister_client :
    (c d : ℕ) (s : Server)
    → has_client c (unregister_client d s).clients ≡ (has_client c s.clients && not (d == c))
unfolding unregister_client
has_client-unregister_client c d s =
    if-elim_eq {A = Server} (λ u. has_client c u.clients ≡ (has_client c s.clients && not (d == c)))
      (has_client d s.clients) (λ there. has_client-without c d s.clients)
      (λ missing. has_client-missing c d s.clients missing)

pub has_client-unregister_all :
    (c : ℕ) (dead : List ℕ) (s : Server)
    → has_client c (unregister_all dead s).clients
      ≡ (has_client c s.clients && not (has_client c dead))
unfolding unregister_all has_client
has_client-unregister_all c [] s = ground arith
has_client-unregister_all c (d ∷ dead) s = ground (
  arith,
  has_client-unregister_all c dead (unregister_client d s),
  has_client-unregister_client c d s,
)

-- The frames that a client has got, in order.
unfoldable pub frames_to : ℕ → List SocketCall → List Bytes
frames_to c [] = []
frames_to c (sent d frame ∷ calls) =
    let rest = frames_to c calls in if d == c then frame ∷ rest else rest
frames_to c (closed d ∷ calls) = frames_to c calls

frames_to-append :
    (c : ℕ) (xs ys : List SocketCall) → frames_to c (xs ++ ys) ≡ frames_to c xs ++ frames_to c ys
unfolding frames_to
frames_to-append c [] ys = refl
frames_to-append c (sent d frame ∷ xs) ys = elim (Bool-cases (d == c)) [
  | inl same ↦ rw same (ap (λ u. frame ∷ u) (frames_to-append c xs ys))
  | inr other ↦ rw other (frames_to-append c xs ys)
]
frames_to-append c (closed d ∷ xs) ys = frames_to-append c xs ys

frames_to-unregister_client :
    (c d : ℕ) (s : Server) → frames_to c (unregister_client d s).calls ≡ frames_to c s.calls
unfolding unregister_client frames_to
frames_to-unregister_client c d s =
    if-elim {A = Server} (λ u. frames_to c u.calls ≡ frames_to c s.calls) (has_client d s.clients)
      (frames_to-append c s.calls (closed d ∷ []) ∙ append-nil (frames_to c s.calls)) refl

pub frames_to-unregister_all :
    (c : ℕ) (dead : List ℕ) (s : Server)
    → frames_to c (unregister_all dead s).calls ≡ frames_to c s.calls
unfolding unregister_all
frames_to-unregister_all c [] s = refl
frames_to-unregister_all c (d ∷ dead) s =
    frames_to-unregister_all c dead (unregister_client d s) ∙ frames_to-unregister_client c d s

-- No client is in the set twice.
abbrev pub NoTwice : List ℕ → Type 0
NoTwice [] = Unit
NoTwice (c ∷ clients) = (has_client c clients ≡ false) × NoTwice clients

and_false : (b : Bool) → (b && false) ≡ false
and_false b = ground arith

module _ (accepts : ℕ → Bytes → Bool) where
  pub clients-record_call :
      (c : ℕ) (frame : Option Bytes) (s : Server)
      → (record_call accepts c frame s).clients ≡ s.clients
  unfolding record_call
  clients-record_call c none s = refl
  clients-record_call c (some frame) s = refl

  pub clients-send_all :
      (clients : List ℕ) (frame : Option Bytes) (s : Server)
      → (send_all accepts clients frame s).0.clients ≡ s.clients
  unfolding send_all
  clients-send_all [] frame s = refl
  clients-send_all (c ∷ clients) frame s =
      if-elim {A = Server × List ℕ} (λ u. u.0.clients ≡ s.clients) (gets_through accepts c frame)
        (clients-send_all clients frame (record_call accepts c frame s)
          ∙ clients-record_call c frame s)
        (clients-send_all clients frame s)

  -- The dead are the clients that did not take the frame.
  pub has_client-send_all :
      (c : ℕ) (clients : List ℕ) (frame : Option Bytes) (s : Server)
      → has_client c (send_all accepts clients frame s).1
        ≡ (has_client c clients && not (gets_through accepts c frame))
  unfolding send_all has_client
  has_client-send_all c [] frame s = refl
  has_client-send_all c (d ∷ clients) frame s =
      let alike : (d == c) ≡ true → gets_through accepts c frame ≡ gets_through accepts d frame =
        λ same. ap (λ x. gets_through accepts x frame) (sym ((==_iff d c).0 same)) in
      elim (Bool-cases (gets_through accepts d frame)) [
        | inl through ↦
            let others = has_client-send_all c clients frame (record_call accepts d frame s) in
            rw through (elim (Bool-cases (d == c)) [
              | inl same ↦
                  let e = alike same ∙ through in
                  rw (same, e) (others ∙ rw e (and_false (has_client c clients)))
              | inr other ↦ rw other others
            ])
        | inr failed ↦
            let others = has_client-send_all c clients frame s in
            rw failed (elim (Bool-cases (d == c)) [
              | inl same ↦ let e = alike same ∙ failed in rw (same, e) refl
              | inr other ↦ rw other others
            ])
      ]

  -- What a client gets in the first loop.
  frames_to-record_call :
      (c d : ℕ) (frame : Bytes) (s : Server)
      → frames_to c (record_call accepts d (some frame) s).calls
        ≡ frames_to c s.calls ++ (if d == c then frame ∷ [] else [])
  unfolding record_call frames_to
  frames_to-record_call c d frame s = frames_to-append c s.calls (sent d frame ∷ [])

  pub frames_to-send_all :
      (c : ℕ) (clients : List ℕ) (frame : Bytes) (s : Server)
      → NoTwice clients
      → frames_to c (send_all accepts clients (some frame) s).0.calls
        ≡ frames_to c s.calls
          ++ (if has_client c clients && accepts c frame then frame ∷ [] else [])
  unfolding send_all has_client gets_through
  frames_to-send_all c [] frame s h = sym (append-nil (frames_to c s.calls))
  frames_to-send_all c (d ∷ clients) frame s (new, h) = elim (Bool-cases (accepts d frame)) [
    | inl through ↦
        let rest = frames_to-send_all c clients frame (record_call accepts d (some frame) s) h in
        let here = frames_to-record_call c d frame s in
        rw through (
          rest
          ∙ ap (λ u. u ++ (if has_client c clients && accepts c frame then frame ∷ [] else [])) here
          ∙ append_assoc (frames_to c s.calls) _ _
          ∙ ap (λ u. frames_to c s.calls ++ u) (together (Bool-cases (d == c)) through new))
    | inr failed ↦
        let rest = frames_to-send_all c clients frame s h in
        rw failed
          (rest ∙ ap (λ u. frames_to c s.calls ++ u) (apart (Bool-cases (d == c)) failed new))
  ]
    where
      together :
          ((d == c) ≡ true) ⊎ ((d == c) ≡ false)
          → accepts d frame ≡ true
          → has_client d clients ≡ false
          → (if d == c then frame ∷ [] else [])
              ++ (if has_client c clients && accepts c frame then frame ∷ [] else [])
            ≡ (if (d == c || has_client c clients) && accepts c frame then frame ∷ [] else [])
      together (inl same) through new =
          let e : c ≡ d = sym ((==_iff d c).0 same) in
          let g : accepts c frame ≡ true = ap (λ x. accepts x frame) e ∙ through in
          let n : has_client c clients ≡ false = ap (λ x. has_client x clients) e ∙ new in
          rw (same, g, n) refl
      together (inr other) through new = rw other refl

      apart :
          ((d == c) ≡ true) ⊎ ((d == c) ≡ false)
          → accepts d frame ≡ false
          → has_client d clients ≡ false
          → (if has_client c clients && accepts c frame then frame ∷ [] else [])
            ≡ (if (d == c || has_client c clients) && accepts c frame then frame ∷ [] else [])
      apart (inl same) failed new =
          let e : c ≡ d = sym ((==_iff d c).0 same) in
          let g : accepts c frame ≡ false = ap (λ x. accepts x frame) e ∙ failed in
          let n : has_client c clients ≡ false = ap (λ x. has_client x clients) e ∙ new in
          rw (same, g, n) refl
      apart (inr other) failed new = rw other refl
