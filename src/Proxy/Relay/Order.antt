-- ===== src/Proxy/Relay/Order.antt =====
-- Proxy/LocalProxy.cpp: the order of the bytes in the channels of the relay.
use task_lunev.Base.{
  ℕ, ◌≡◌, arith, refl, sym, ap, ◌∙◌, if◌then◌else◌, ltb, Option, none, some, List, [], ◌∷◌, ◌++◌,
  length, take, drop, append_assoc, append-nil, append-take-drop,
}
use task_lunev.Memory.{Bytes, Reply, ok, fail, fault}
use task_lunev.Proxy.Relay.{
  Channel, Answer, wrote, again, error, write_pieces, read_in, client_splice, first_splice,
  write_last, sent_from, sent_to,
}

-- The bytes of a channel, the oldest first, and those of all channels.
abbrev pub content : Channel → Bytes
content c = c.pending ++ (c.from_client ++ c.to_client)

abbrev pub in_flight : List Channel → Bytes
in_flight [] = []
in_flight (c ∷ cs) = in_flight cs ++ content c

in_flight-append : (xs ys : List Channel) → in_flight (xs ++ ys) ≡ in_flight ys ++ in_flight xs
in_flight-append [] ys = sym (append-nil (in_flight ys))
in_flight-append (c ∷ xs) ys =
    ap (λ t. t ++ content c) (in_flight-append xs ys)
    ∙ append_assoc (in_flight ys) (in_flight xs) (content c)

-- The pipe to the first client carries no bytes of the file.
abbrev pub first_pipe : List Channel → Bytes
first_pipe [] = []
first_pipe (c ∷ cs) = c.to_client

-- What a loop that ends normally has, sent and left together.
abbrev together : Option (Reply (Bytes × Bytes)) → Bytes
together (some (ok (sent, left))) = sent ++ left
together _ = []

abbrev then_piece : Bytes → Option (Reply (Bytes × Bytes)) → Option (Reply (Bytes × Bytes))
then_piece piece o = elim o [
  | none ↦ none
  | some (ok (sent, left)) ↦ some (ok (piece ++ sent, left))
  | some (fail e) ↦ some (fail e)
  | some fault ↦ some fault
]

then_piece-rest :
    (piece : Bytes) (o : Option (Reply (Bytes × Bytes))) (sent left : Bytes)
    → then_piece piece o ≡ some (ok (sent, left))
    → ((more : Bytes) × (o ≡ some (ok (more, left))))
      × (together (then_piece piece o) ≡ piece ++ together o)
then_piece-rest piece none sent left h = ground arith
then_piece-rest piece (some (fail e)) sent left h = ground arith
then_piece-rest piece (some fault) sent left h = ground arith
then_piece-rest piece (some (ok (more, rest))) sent left h =
    ((more, ap (λ r. some (ok (more, r))) (ap left_of h)), append_assoc piece more rest)
  where
    left_of : Option (Reply (Bytes × Bytes)) → Bytes
    left_of (some (ok (_, l))) = l
    left_of _ = []

write_pieces-together :
    (answers : List Answer) (len : ℕ) (buf sent left : Bytes)
    → write_pieces answers len buf ≡ some (ok (sent, left))
    → together (write_pieces answers len buf) ≡ buf
unfolding write_pieces
write_pieces-together answers len [] sent left h = refl
write_pieces-together [] len (b ∷ bs) sent left h = ground arith
write_pieces-together (again ∷ answers) len (b ∷ bs) sent left h = refl
write_pieces-together (error ∷ answers) len (b ∷ bs) sent left h = ground arith
write_pieces-together (wrote k ∷ answers) len (b ∷ bs) sent left h =
    let buf : Bytes = b ∷ bs in
    let len' = if ltb (length buf) len then length buf else len in
    let k' = if ltb len' k then len' else k in
    let rest = write_pieces answers len' (drop k' buf) in
    let ((more, e), same) = then_piece-rest (take k' buf) rest sent left h in
    same
    ∙ ap (λ t. take k' buf ++ t) (write_pieces-together answers len' (drop k' buf) more left e)
    ∙ append-take-drop k' buf

pub write_pieces-append :
    (answers : List Answer) (len : ℕ) (buf sent left : Bytes)
    → write_pieces answers len buf ≡ some (ok (sent, left))
    → sent ++ left ≡ buf
write_pieces-append answers len buf sent left h =
    sym (ap together h) ∙ write_pieces-together answers len buf sent left h

-- A change of one channel, or of two neighbours, that keeps the order of their bytes.
pub in_flight_one :
    (front back : List Channel) (c c' : Channel)
    → content c' ≡ content c
    → in_flight (front ++ (c' ∷ back)) ≡ in_flight (front ++ (c ∷ back))
in_flight_one front back c c' e =
    in_flight-append front (c' ∷ back)
    ∙ ap (λ t. (in_flight back ++ t) ++ in_flight front) e
    ∙ sym (in_flight-append front (c ∷ back))

pub in_flight_two :
    (front back : List Channel) (c c' d d' : Channel)
    → content d' ++ content c' ≡ content d ++ content c
    → in_flight (front ++ (c' ∷ d' ∷ back)) ≡ in_flight (front ++ (c ∷ d ∷ back))
in_flight_two front back c c' d d' e =
    in_flight-append front (c' ∷ d' ∷ back)
    ∙ ap (λ t. t ++ in_flight front)
        (append_assoc (in_flight back) (content d') (content c')
          ∙ ap (λ t. in_flight back ++ t) e
          ∙ sym (append_assoc (in_flight back) (content d) (content c)))
    ∙ sym (in_flight-append front (c ∷ d ∷ back))

pub in_flight_last :
    (front : List Channel) (c : Channel)
    → in_flight (front ++ (c ∷ [])) ≡ content c ++ in_flight front
in_flight_last front c = in_flight-append front (c ∷ [])

pub content-read_in : (c : Channel) (k : ℕ) → c.pending ≡ [] → content (read_in k c) ≡ content c
content-read_in c k e =
    sym (append_assoc (take k c.from_client) (drop k c.from_client) c.to_client)
    ∙ ap (λ t. t ++ c.to_client) (append-take-drop k c.from_client)
    ∙ ap (λ t. t ++ (c.from_client ++ c.to_client)) (sym e)

pub content-client_splice : (c : Channel) (k : ℕ) → content (client_splice k c) ≡ content c
content-client_splice c k =
    ap (λ t. c.pending ++ t)
      (append_assoc c.from_client (take k c.to_client) (drop k c.to_client)
        ∙ ap (λ t. c.from_client ++ t) (append-take-drop k c.to_client))

pub content-sent :
    (c d : Channel) (sent left : Bytes)
    → sent ++ left ≡ c.pending
    → content (sent_to sent d) ++ content (sent_from left c) ≡ content d ++ content c
content-sent c d sent left e = rw (← e) (simp append_assoc refl)

pub content-write_last :
    (c : Channel) (m : ℕ) → take m c.pending ++ content (write_last m c) ≡ content c
content-write_last c m =
    sym (append_assoc (take m c.pending) (drop m c.pending) (c.from_client ++ c.to_client))
    ∙ ap (λ t. t ++ (c.from_client ++ c.to_client)) (append-take-drop m c.pending)

pub content-first_splice :
    (c : Channel) (file : Bytes) (k : ℕ)
    → c.to_client ≡ []
    → content (first_splice k file c) ++ drop k file ≡ content c ++ file
content-first_splice c file k e =
    simp (e, append_assoc) (ap (λ t. c.pending ++ (c.from_client ++ t)) (append-take-drop k file))

-- The channel in front keeps its pipe where what follows it changes.
pub first_pipe_one :
    (front back : List Channel) (c c' : Channel)
    → c'.to_client ≡ c.to_client
    → first_pipe (front ++ (c' ∷ back)) ≡ first_pipe (front ++ (c ∷ back))
first_pipe_one [] back c c' e = e
first_pipe_one (f ∷ front) back c c' e = refl

pub first_pipe_two :
    (front back : List Channel) (c c' d d' : Channel)
    → c'.to_client ≡ c.to_client
    → first_pipe (front ++ (c' ∷ d' ∷ back)) ≡ first_pipe (front ++ (c ∷ d ∷ back))
first_pipe_two [] back c c' d d' e = e
first_pipe_two (f ∷ front) back c c' d d' e = refl
