-- ===== src/Interleaving/Knowledge.antt =====
-- What each end knows at each point about the messages that are published and not yet taken.
use icmsg_rs.Prelude.{
  ℕ, ◌+◌, ◌^◌, ◌<◌, ◌≡◌, refl, sym, ◌∙◌, ap, Bool, true, false, ◌⊎◌, inl, inr, List, [], ◌∷◌, ◌++◌,
  arith, append_assoc, length, take,
}
use mathlib.Core.Path.{subst}
use icmsg_rs.Transport.Cursor.Laws.{wrap}
use icmsg_rs.Transport.Queue.{Queue, packet_size, footprint}
use icmsg_rs.Transport.Stream.{Holds, Stores, Stores-tail}
use icmsg_rs.Interleaving.{
  SendPc, filled, stored, RecvPc, polled, taken, asleep, Waiter, unregistered, registered, fired,
  fire,
}

-- The read index after the messages of `old`.
abbrev pub advance : ℕ → ℕ → Queue → ℕ
advance size rd_idx [] = rd_idx
advance size rd_idx (m ∷ old) = advance size (wrap size (rd_idx + packet_size (length m))) old

pub advance-append :
    (size rd_idx : ℕ) (old : Queue) (m : List ℕ)
    → advance size rd_idx (old ++ (m ∷ []))
      ≡ wrap size (advance size rd_idx old + packet_size (length m))
advance-append size rd_idx [] m = refl
advance-append size rd_idx (n ∷ old) m =
    advance-append size (wrap size (rd_idx + packet_size (length n))) old m

-- Messages that have been taken may be dropped from what a ring stores.
pub Stores-drop :
    {size rd_idx wr_idx : ℕ} {bytes : List ℕ} (old q : Queue)
    → Stores size rd_idx wr_idx bytes (old ++ q)
    → Stores size (advance size rd_idx old) wr_idx bytes q
Stores-drop [] q st = st
Stores-drop {size} {rd_idx} (m ∷ old) q st =
    Stores-drop {rd_idx = wrap size (rd_idx + packet_size (length m))} old q (Stores-tail st)

pub footprint-append_queue : (p q : Queue) → footprint (p ++ q) ≡ footprint p + footprint q
footprint-append_queue [] q = omega arith
footprint-append_queue (m ∷ p) q = omega (arith, footprint-append_queue p q)

Holds-prefix : (p q : Queue) (v : ℕ → ℕ) → Holds v (p ++ q) → Holds v p
Holds-prefix [] q v h = tt
Holds-prefix (m ∷ p) q v h = (h.0, Holds-prefix p q (λ i. v (packet_size (length m) + i)) h.1)

-- Messages at the end may be forgotten: an older write index is as good.
pub Stores-prefix :
    {size rd_idx wr_idx : ℕ} {bytes : List ℕ} (p q : Queue)
    → Stores size rd_idx wr_idx bytes (p ++ q)
    → Stores size rd_idx (wrap size (rd_idx + footprint p)) bytes p
Stores-prefix p q st = record {
  ring = st.ring;
  whole = st.whole;
  reader = st.reader;
  room = let r = st.room in omega (arith, footprint-append_queue p q);
  writer = refl;
  holds = Holds-prefix p q _ st.holds;
}

-- What the sender knows, while `q` is published and not taken: the read index that it has loaded may be
-- left behind by the messages `old`.
abbrev pub SenderKnows : ℕ → ℕ → ℕ → List ℕ → Queue → SendPc → Type 0
SenderKnows size rd_idx wr_idx bytes q SendPc.idle = Unit
SenderKnows size rd_idx wr_idx bytes q (SendPc.loaded seen msg) =
    (length msg < 2 ^ 16)
    × (old : Queue) × Stores size seen wr_idx bytes (old ++ q)
    × (rd_idx ≡ advance size seen old)
SenderKnows size rd_idx wr_idx bytes q (filled wr_idx' msg) =
    Stores size rd_idx wr_idx' bytes (q ++ (msg ∷ []))
SenderKnows size rd_idx wr_idx bytes q stored = Unit

-- A receiver that may go to sleep is sure to be woken for the messages `unseen`.
abbrev pub IsWoken : Bool → Waiter → SendPc → Queue → Type 0
IsWoken false waiter sender unseen = Unit
IsWoken true unregistered sender unseen = ⊥
IsWoken true registered sender unseen = (unseen ≡ []) ⊎ (sender ≡ stored)
IsWoken true fired sender unseen = Unit

-- What the receiver knows: the write index that it has loaded may miss the messages `unseen`.
abbrev pub ReceiverKnows : ℕ → ℕ → Queue → SendPc → Waiter → RecvPc → Type 0
ReceiverKnows size rd_idx q sender waiter RecvPc.idle = Unit
ReceiverKnows size rd_idx q sender waiter (polled true buf) = IsWoken true waiter sender []
ReceiverKnows size rd_idx q sender waiter (polled false buf) = Unit
ReceiverKnows size rd_idx q sender waiter (RecvPc.loaded pending buf wr_idx) =
    (seen unseen : Queue) × (q ≡ seen ++ unseen)
    × (wr_idx ≡ wrap size (rd_idx + footprint seen))
    × IsWoken pending waiter sender unseen
ReceiverKnows size rd_idx q sender waiter (taken n rd_idx' buf) =
    (m : List ℕ) × (rest : Queue) × (q ≡ m ∷ rest)
    × (rd_idx' ≡ wrap size (rd_idx + packet_size (length m)))
    × (take n buf ≡ m)
ReceiverKnows size rd_idx q sender waiter asleep = IsWoken true waiter sender q

-- The receiver's knowledge when the sender takes a step that publishes nothing and owes no
-- notification before it.
IsWoken-quiet :
    (pending : Bool) (waiter : Waiter) (p p' : SendPc) (unseen : Queue)
    → (p ≡ stored → ⊥)
    → IsWoken pending waiter p unseen
    → IsWoken pending waiter p' unseen
IsWoken-quiet false waiter p p' unseen no_debt w = tt
IsWoken-quiet true unregistered p p' unseen no_debt w = w
IsWoken-quiet true registered p p' unseen no_debt (inl e) = inl e
IsWoken-quiet true registered p p' unseen no_debt (inr e) = absurd (no_debt e)
IsWoken-quiet true fired p p' unseen no_debt w = tt

-- When it publishes a message.
IsWoken-publish :
    (pending : Bool) (waiter : Waiter) (p : SendPc) (unseen more : Queue)
    → IsWoken pending waiter p unseen
    → IsWoken pending waiter stored more
IsWoken-publish false waiter p unseen more w = tt
IsWoken-publish true unregistered p unseen more w = w
IsWoken-publish true registered p unseen more w = inr refl
IsWoken-publish true fired p unseen more w = tt

-- When it notifies.
IsWoken-notify :
    (pending : Bool) (waiter : Waiter) (p p' : SendPc) (unseen : Queue)
    → IsWoken pending waiter p unseen
    → IsWoken pending (fire waiter) p' unseen
IsWoken-notify false waiter p p' unseen w = tt
IsWoken-notify true unregistered p p' unseen w = w
IsWoken-notify true registered p p' unseen w = tt
IsWoken-notify true fired p p' unseen w = tt

pub ReceiverKnows-quiet :
    (size rd_idx : ℕ) (q : Queue) (p p' : SendPc) (waiter : Waiter) (r : RecvPc)
    → (p ≡ stored → ⊥)
    → ReceiverKnows size rd_idx q p waiter r
    → ReceiverKnows size rd_idx q p' waiter r
ReceiverKnows-quiet size rd_idx q p p' waiter RecvPc.idle no_debt k = tt
ReceiverKnows-quiet size rd_idx q p p' waiter (polled true buf) no_debt k =
    IsWoken-quiet true waiter p p' [] no_debt k
ReceiverKnows-quiet size rd_idx q p p' waiter (polled false buf) no_debt k = tt
ReceiverKnows-quiet size rd_idx q p p' waiter (RecvPc.loaded pending buf wr_idx) no_debt k =
    (k.0, k.1, k.2, k.3, IsWoken-quiet pending waiter p p' k.1 no_debt k.4)
ReceiverKnows-quiet size rd_idx q p p' waiter (taken n rd_idx' buf) no_debt k = k
ReceiverKnows-quiet size rd_idx q p p' waiter asleep no_debt k =
    IsWoken-quiet true waiter p p' q no_debt k

pub ReceiverKnows-publish :
    (size rd_idx : ℕ) (q : Queue) (msg : List ℕ) (p : SendPc) (waiter : Waiter) (r : RecvPc)
    → ReceiverKnows size rd_idx q p waiter r
    → ReceiverKnows size rd_idx (q ++ (msg ∷ [])) stored waiter r
ReceiverKnows-publish size rd_idx q msg p waiter RecvPc.idle k = tt
ReceiverKnows-publish size rd_idx q msg p waiter (polled true buf) k =
    IsWoken-publish true waiter p [] [] k
ReceiverKnows-publish size rd_idx q msg p waiter (polled false buf) k = tt
ReceiverKnows-publish size rd_idx q msg p waiter (RecvPc.loaded pending buf wr_idx) k = (
  k.0,
  k.1 ++ (msg ∷ []),
  ap (λ l. l ++ (msg ∷ [])) k.2 ∙ append_assoc k.0 k.1 (msg ∷ []),
  k.3,
  IsWoken-publish pending waiter p k.1 (k.1 ++ (msg ∷ [])) k.4,
)
ReceiverKnows-publish size rd_idx q msg p waiter (taken n rd_idx' buf) k =
    (k.0, k.1 ++ (msg ∷ []), ap (λ l. l ++ (msg ∷ [])) k.2, k.3, k.4)
ReceiverKnows-publish size rd_idx q msg p waiter asleep k =
    IsWoken-publish true waiter p q (q ++ (msg ∷ [])) k

pub ReceiverKnows-notify :
    (size rd_idx : ℕ) (q : Queue) (p p' : SendPc) (waiter : Waiter) (r : RecvPc)
    → ReceiverKnows size rd_idx q p waiter r
    → ReceiverKnows size rd_idx q p' (fire waiter) r
ReceiverKnows-notify size rd_idx q p p' waiter RecvPc.idle k = tt
ReceiverKnows-notify size rd_idx q p p' waiter (polled true buf) k =
    IsWoken-notify true waiter p p' [] k
ReceiverKnows-notify size rd_idx q p p' waiter (polled false buf) k = tt
ReceiverKnows-notify size rd_idx q p p' waiter (RecvPc.loaded pending buf wr_idx) k =
    (k.0, k.1, k.2, k.3, IsWoken-notify pending waiter p p' k.1 k.4)
ReceiverKnows-notify size rd_idx q p p' waiter (taken n rd_idx' buf) k = k
ReceiverKnows-notify size rd_idx q p p' waiter asleep k = IsWoken-notify true waiter p p' q k

-- The sender's knowledge when the receiver drops the oldest message.
pub SenderKnows-release :
    (size rd_idx wr_idx : ℕ) (bytes m : List ℕ) (q : Queue) (p : SendPc)
    → SenderKnows size rd_idx wr_idx bytes (m ∷ q) p
    → SenderKnows size (wrap size (rd_idx + packet_size (length m))) wr_idx bytes q p
SenderKnows-release size rd_idx wr_idx bytes m q SendPc.idle k = tt
SenderKnows-release size rd_idx wr_idx bytes m q (SendPc.loaded seen msg) k = (
  k.0,
  k.1 ++ (m ∷ []),
  subst (λ l. Stores size seen wr_idx bytes l) (sym (append_assoc k.1 (m ∷ []) q)) k.2,
  ap (λ i. wrap size (i + packet_size (length m))) k.3 ∙ sym (advance-append size seen k.1 m),
)
SenderKnows-release size rd_idx wr_idx bytes m q (filled wr_idx' msg) k = Stores-tail k
SenderKnows-release size rd_idx wr_idx bytes m q stored k = tt
