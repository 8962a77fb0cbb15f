-- ===== src/Broker/Loops/Sent.antt =====
-- What the rounds of `update` of src/broker.cc have sent, and what has come to the queue meanwhile.
use zbroker.Base.{
  none, ◌≡◌, ap, sym, ◌∙◌, ◌⊎◌, inl, inr, Bool, List, [], ◌∷◌, ◌++◌, append_assoc, some, Text,
  length, json_error,
}
use zbroker.Bson.{Bson, Update}
use zbroker.SizedQueue.{PopTurn}
use zbroker.Broker.Loops.{as_update, Status, UpdateLoop}

module _ (bson : Bson) where
  open bson use {Obj}

  -- The updates that a list of texts stands for.
  pub data Means (docset : Text) : List Text → List (Update Obj) → Type 0 where
    nothing : Means docset [] []
    one_more :
        {texts : List Text} {updates : List (Update Obj)} (text : Text) (update : Update Obj)
        → Means docset texts updates
        → as_update bson docset text ≡ some update
        → Means docset (texts ++ text ∷ []) (updates ++ update ∷ [])

  -- What came to the queue during the turns of some rounds: before each `pop` took the lock, and
  -- during those of the waits that were made.
  pub data Arrived : List (PopTurn Text × Bool) → List Text → Type 0 where
    nothing_yet : Arrived [] []
    at_the_lock :
        {seen : List (PopTurn Text × Bool)} {came : List Text} (t : PopTurn Text) (exit : Bool)
        → Arrived seen came
        → Arrived (seen ++ (t, exit) ∷ []) (came ++ t.arrived)
    and_waiting :
        {seen : List (PopTurn Text × Bool)} {came : List Text} (t : PopTurn Text) (exit : Bool)
        → Arrived seen came
        → Arrived (seen ++ (t, exit) ∷ []) (came ++ (t.arrived ++ t.during))

  -- The last turn of some, where a wait ran out with nothing but this in the queue.
  abbrev pub RanOut : List (PopTurn Text × Bool) → List Text → Type 0
  RanOut seen items =
      (front : List (PopTurn Text × Bool)) × (t : PopTurn Text) × (exit : Bool) × (seen
        ≡ front ++ (t, exit) ∷ [])
      × (items ≡ t.during)

  -- Where `update` is after the rounds of some turns, from a queue with the content `start` and
  -- nothing sent: the texts `came` have come to the queue; `taken` are taken and sent, in order,
  -- and counted; what was taken and is no update is `lost`, and then the loop has thrown; and where
  -- it has left, its last wait ran out.
  pub record Sends (start : List Text) (docset : Text) (seen : List (PopTurn Text × Bool))
      (u : UpdateLoop bson) : Type 0 where
    pub came : List Text
    pub so_far : Arrived seen came
    pub taken : List Text
    pub lost : List Text
    pub all_there : taken ++ (lost ++ u.broker.queue.items) ≡ start ++ came
    pub sent_all : Means docset taken u.sent
    pub counted : u.broker.update_count ≡ length taken
    pub same_docset : u.broker.docset ≡ docset
    pub loses :
        (lost ≡ [])
        ⊎ ((x : Text) × (lost ≡ x ∷ [])
            × (as_update bson docset x ≡ none)
            × (u.status ≡ Status.threw json_error))
    pub ran_out : u.status ≡ Status.left → RanOut seen u.broker.queue.items

  -- A loop that runs has lost nothing.
  pub none_lost :
      {start : List Text} {docset : Text} {seen : List (PopTurn Text × Bool)} {u : UpdateLoop bson}
      (v : Sends start docset seen u)
      → u.status ≡ Status.running
      → v.taken ++ u.broker.queue.items ≡ start ++ v.came
  none_lost {u = u} v r = elim v.loses [
    | inl e ↦ ap (λ l. v.taken ++ (l ++ u.broker.queue.items)) (sym e) ∙ v.all_there
    | inr (x, f, g, e) ↦ absurd (cc (r, e))
  ]

  -- What has come since goes to the end of the content.
  pub more_came :
      {start : List Text} {docset : Text} {seen : List (PopTurn Text × Bool)} {u : UpdateLoop bson}
      (v : Sends start docset seen u) (new after : List Text)
      → u.status ≡ Status.running
      → u.broker.queue.items ++ new ≡ after
      → v.taken ++ after ≡ start ++ (v.came ++ new)
  more_came {start} {u = u} v new after r e =
      ap (◌++◌ v.taken) (sym e)
      ∙ sym (append_assoc v.taken u.broker.queue.items new)
      ∙ ap (λ xs. xs ++ new) (none_lost v r)
      ∙ append_assoc start v.came new

  -- What came in a round: with its wait or without.
  abbrev pub IsNew : PopTurn Text → List Text → Type 0
  IsNew t new = (new ≡ t.arrived) ⊎ (new ≡ t.arrived ++ t.during)

  pub IsNew-Arrived :
      {seen : List (PopTurn Text × Bool)} {came new : List Text} (t : PopTurn Text) (exit : Bool)
      → Arrived seen came
      → IsNew t new
      → Arrived (seen ++ (t, exit) ∷ []) (came ++ new)
  IsNew-Arrived t exit a (inl e) = rw e (Arrived.at_the_lock t exit a)
  IsNew-Arrived t exit a (inr e) = rw e (Arrived.and_waiting t exit a)
