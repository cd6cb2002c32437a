-- ===== src/Internal/Booking/Delivered.antt =====
-- The loop of `BookingRequestGuard` in internal/booking.py that buffers a body.
use editingtab_platform_core.Shared.{
  ℕ, ◌+◌, ◌≤◌, Bool, true, false, List, [], ◌∷◌, ◌++◌, map, Text, length, ltb, ◌≡◌, refl, sym, ◌∙◌,
  ap, subst, inl, inr, Bool-cases, if◌then◌else◌, arith,
}
use mathlib.Core.List.{append_assoc}
use editingtab_platform_core.Internal.Booking.Guard.{
  Message, disconnect, request, Decision, forwarded, buffer, invalid_authorization_request,
}

-- The parts of a body, put together.
abbrev pub together : List Text → Text
together [] = []
together (part ∷ parts) = part ++ together parts

abbrev pub unfinished : Text → Message
unfinished part = request part true

-- The messages bring a body of at most 4096 bytes in parts, of which the last one says that no
-- more follow.
pub record Delivered (start : Text) (messages : List Message) (body : Text) : Type 0 where
  pub parts : List Text
  pub final : Text
  pub rest : List Message
  pub in_order : messages ≡ map unfinished parts ++ request final false ∷ rest
  pub whole : body ≡ start ++ (together parts ++ final)
  pub bounded : length body ≤ 4096

length-++ : (s t : Text) → length (s ++ t) ≡ length s + length t
length-++ [] t = omega arith
length-++ (c ∷ s) t = omega (arith, length-++ s t)

in_bounds : (n : ℕ) → ltb 4096 n ≡ false → n ≤ 4096
in_bounds n t = ground (arith, t)

out_of_bounds : (n : ℕ) → n ≤ 4096 → ltb 4096 n ≡ false
out_of_bounds n t = ground (arith, t)

abbrev body_of : Decision → Text
body_of (forwarded b) = b
body_of _ = []

-- A part that moves from the start to the rest.
moved :
    (start part middle final : Text)
    → (start ++ part) ++ (middle ++ final) ≡ start ++ ((part ++ middle) ++ final)
moved start part middle final =
    append_assoc start part (middle ++ final)
    ∙ ap (λ r. start ++ r) (sym (append_assoc part middle final))

pub buffer-Delivered :
    (start : Text) (messages : List Message) {body : Text}
    → buffer start messages ≡ forwarded body
    → Delivered start messages body
unfolding buffer
buffer-Delivered start [] e = cc
buffer-Delivered start (disconnect ∷ messages) e = cc
buffer-Delivered start (request part more ∷ messages) {body} e =
    elim (Bool-cases (ltb 4096 (length (start ++ part)))) [
      | inl t ↦ refused (rw t at e)
      | inr t ↦ go more (λ k. buffer-Delivered (start ++ part) messages k) (rw t at e) t
    ]
  where
    refused : {D : Type 0} → invalid_authorization_request ≡ forwarded body → D
    refused k = cc

    go :
        (more : Bool)
        → (buffer (start ++ part) messages ≡ forwarded body
            → Delivered (start ++ part) messages body)
        → (if more then buffer (start ++ part) messages else forwarded (start ++ part))
          ≡ forwarded body
        → ltb 4096 (length (start ++ part)) ≡ false
        → Delivered start (request part more ∷ messages) body
    go true ih e t =
        let d = ih e in
        record {
          parts = part ∷ d.parts;
          final = d.final;
          rest = d.rest;
          in_order = ap (λ ms. request part true ∷ ms) d.in_order;
          whole = d.whole ∙ moved start part (together d.parts) d.final;
          bounded = d.bounded;
        }
    go false ih e t = record {
      parts = [];
      final = part;
      rest = messages;
      in_order = refl;
      whole = ap body_of (sym e);
      bounded = subst (λ b. length b ≤ 4096) (ap body_of e) (in_bounds _ t);
    }

-- A start of a text is no longer than the text.
start_bounded :
    (start part rest : Text)
    → length (start ++ (part ++ rest)) ≤ 4096
    → ltb 4096 (length (start ++ part)) ≡ false
start_bounded start part rest b =
    out_of_bounds _
      (omega (arith, b, length-++ start part, length-++ start (part ++ rest), length-++ part rest))

pub Delivered-buffer :
    (start : Text) (parts : List Text) (final : Text) (rest : List Message)
    → length (start ++ (together parts ++ final)) ≤ 4096
    → buffer start (map unfinished parts ++ request final false ∷ rest)
      ≡ forwarded (start ++ (together parts ++ final))
unfolding buffer
Delivered-buffer start [] final rest b = rw (out_of_bounds _ b)
Delivered-buffer start (part ∷ parts) final rest b =
    let e = moved start part (together parts) final in
    rw
      (start_bounded start part (together parts ++ final)
        (subst (λ t. length (start ++ t) ≤ 4096) (append_assoc part (together parts) final) b))
      (Delivered-buffer (start ++ part) parts final rest (subst (λ t. length t ≤ 4096) (sym e) b)
        ∙ ap forwarded e)
