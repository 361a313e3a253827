-- ===== src/Kernel/Pipe/Lanes.antt =====
-- The invariant of a pipe with any number of threads, and what changes of one thread do to it.
use kernelpanic.Common.{
  ℕ, ◌+◌, ◌≡◌, refl, sym, ap, ap₂, ◌∙◌, subst, ◌≢◌, inl, inr, arith, ◌==◌, Bool-cases, eqb→eq,
  eqb→ne,
}
use kernelpanic.Common.Store.{update, update_self, update_ne}
use kernelpanic.Kernel.Pipe.{Pipe, Pc, Turn}
use kernelpanic.Kernel.Pipe.Invariant.{
  Lane, free, busy, Inv, read_lane, write_lane, occupied, ReaderBegins, WriterBegins, ReaderGoes,
  WriterGoes,
}
use kernelpanic.Kernel.Pipe.System.{System}

-- At most one thread is inside each side: `reader` is that thread, or any, if there is none.
pub record IsValid (s : System) (reader writer : ℕ) : Type 0 where
  pub inv : Inv s.pipe (read_lane (s.pc reader)) (write_lane (s.pc writer))
  pub read_lock : s.pipe.read_lock + occupied (read_lane (s.pc reader)) ≡ 1
  pub write_lock : s.pipe.write_lock + occupied (write_lane (s.pc writer)) ≡ 1
  pub other_readers : (u : ℕ) → u ≢ reader → read_lane (s.pc u) ≡ free
  pub other_writers : (u : ℕ) → u ≢ writer → write_lane (s.pc u) ≡ free
  pub reader_begins : (u : ℕ) → ReaderBegins (s.pc u)
  pub writer_begins : (u : ℕ) → WriterBegins (s.pc u)

pub Inv-lanes : {p : Pipe} {r r' w w' : Lane} → r ≡ r' → w ≡ w' → Inv p r w → Inv p r' w'
Inv-lanes {p} {r} {r'} {w} {w'} a b i = subst (λ l. Inv p l w') a (subst (λ l. Inv p r l) b i)

-- A thread goes to a point of the same lane: the lanes are as before.
update_lane :
    (side : Pc → Lane) (pc : ℕ → Pc) (t : ℕ) (to : Pc)
    → side to ≡ side (pc t)
    → (u : ℕ) → side (update pc t to u) ≡ side (pc u)
update_lane side pc t to e u = elim (Bool-cases (u == t)) [
  | inl same ↦
      let is = eqb→eq u t same in
      ap (λ u. side (update pc t to u)) is
      ∙ ap side (update_self pc t to)
      ∙ e
      ∙ ap (λ u. side (pc u)) (sym is)
  | inr other ↦ ap side (update_ne pc t u to (eqb→ne u t other))
]

update_all :
    (P : Pc → Type 0) (pc : ℕ → Pc) (t : ℕ) (to : Pc)
    → P to
    → ((u : ℕ) → P (pc u))
    → (u : ℕ) → P (update pc t to u)
update_all P pc t to now all u = elim (Bool-cases (u == t)) [
  | inl same ↦
      subst (λ u. P (update pc t to u)) (sym (eqb→eq u t same))
        (subst P (sym (update_self pc t to)) now)
  | inr other ↦ subst P (sym (update_ne pc t u to (eqb→ne u t other))) (all u)
]

pub free_empty : (l : Lane) → occupied l ≡ 0 → l ≡ free
free_empty free h = refl
free_empty (busy c ph) h = absurd (omega arith)

module _ {s : System} {reader writer : ℕ} (v : IsValid s reader writer) (t : ℕ) where
  -- With the first semaphore free, any thread can be the one inside.
  pub to_reader : read_lane (s.pc t) ≡ free → s.pipe.read_lock ≢ 0 → IsValid s t writer
  to_reader mine open_lock =
      let nobody : read_lane (s.pc reader) ≡ free = free_empty _ (omega (arith, v.read_lock)) in
      let e : read_lane (s.pc reader) ≡ read_lane (s.pc t) = nobody ∙ sym mine in
      record {
        inv = subst (λ l. Inv s.pipe l (write_lane (s.pc writer))) e v.inv;
        read_lock = sym (ap (λ l. s.pipe.read_lock + occupied l) e) ∙ v.read_lock;
        write_lock = v.write_lock;
        other_readers = λ u ne. elim (Bool-cases (u == reader)) [
          | inl same ↦ ap (λ u. read_lane (s.pc u)) (eqb→eq u reader same) ∙ nobody
          | inr other ↦ v.other_readers u (eqb→ne u reader other)
        ];
        other_writers = v.other_writers;
        reader_begins = v.reader_begins;
        writer_begins = v.writer_begins;
      }

  pub to_writer : write_lane (s.pc t) ≡ free → s.pipe.write_lock ≢ 0 → IsValid s reader t
  to_writer mine open_lock =
      let nobody : write_lane (s.pc writer) ≡ free = free_empty _ (omega (arith, v.write_lock)) in
      let e : write_lane (s.pc writer) ≡ write_lane (s.pc t) = nobody ∙ sym mine in
      record {
        inv = subst (λ l. Inv s.pipe (read_lane (s.pc reader)) l) e v.inv;
        read_lock = v.read_lock;
        write_lock = sym (ap (λ l. s.pipe.write_lock + occupied l) e) ∙ v.write_lock;
        other_readers = v.other_readers;
        other_writers = λ u ne. elim (Bool-cases (u == writer)) [
          | inl same ↦ ap (λ u. write_lane (s.pc u)) (eqb→eq u writer same) ∙ nobody
          | inr other ↦ v.other_writers u (eqb→ne u writer other)
        ];
        reader_begins = v.reader_begins;
        writer_begins = v.writer_begins;
      }

  -- Any other change of a thread that stays in the same lanes.
  pub same_lanes :
      (to : Pc)
      → read_lane to ≡ read_lane (s.pc t)
      → write_lane to ≡ write_lane (s.pc t)
      → ReaderBegins to
      → WriterBegins to
      → IsValid (record s { pc = update s.pc t to }) reader writer
  same_lanes to r w rb wb =
      let reads = update_lane read_lane s.pc t to r in
      let writes = update_lane write_lane s.pc t to w in
      record {
        inv = Inv-lanes (sym (reads reader)) (sym (writes writer)) v.inv;
        read_lock = ap (λ l. s.pipe.read_lock + occupied l) (reads reader) ∙ v.read_lock;
        write_lock = ap (λ l. s.pipe.write_lock + occupied l) (writes writer) ∙ v.write_lock;
        other_readers = λ u ne. reads u ∙ v.other_readers u ne;
        other_writers = λ u ne. writes u ∙ v.other_writers u ne;
        reader_begins = update_all ReaderBegins s.pc t to rb v.reader_begins;
        writer_begins = update_all WriterBegins s.pc t to wb v.writer_begins;
      }

module _ {s : System} {t other : ℕ} {turn : Turn} {old : Lane} where
  pub reader_next :
      IsValid s t other
      → write_lane (s.pc t) ≡ free
      → old ≡ read_lane (s.pc t)
      → (g : ReaderGoes turn s.pipe old (write_lane (s.pc other)))
      → IsValid (record { pipe = g.next; pc = update s.pc t g.pc }) t other
  reader_next v mine was g =
      let now : read_lane (update s.pc t g.pc t) ≡ read_lane g.pc =
        ap read_lane (update_self s.pc t g.pc) in
      let writes = update_lane write_lane s.pc t g.pc (g.reader ∙ sym mine) in
      record {
        inv = Inv-lanes (sym now) (sym (writes other)) g.inv;
        read_lock =
            ap (λ l. g.next.read_lock + occupied l) now
            ∙ g.side
            ∙ ap (λ l. s.pipe.read_lock + occupied l) was
            ∙ v.read_lock;
        write_lock = ap₂ (λ a l. a + occupied l) g.other_side (writes other) ∙ v.write_lock;
        other_readers = λ u ne. ap read_lane (update_ne s.pc t u g.pc ne) ∙ v.other_readers u ne;
        other_writers = λ u ne. writes u ∙ v.other_writers u ne;
        reader_begins = update_all ReaderBegins s.pc t g.pc g.reader_begins v.reader_begins;
        writer_begins = update_all WriterBegins s.pc t g.pc g.writer_begins v.writer_begins;
      }

  pub writer_next :
      IsValid s other t
      → read_lane (s.pc t) ≡ free
      → old ≡ write_lane (s.pc t)
      → (g : WriterGoes turn s.pipe (read_lane (s.pc other)) old)
      → IsValid (record { pipe = g.next; pc = update s.pc t g.pc }) other t
  writer_next v mine was g =
      let now : write_lane (update s.pc t g.pc t) ≡ write_lane g.pc =
        ap write_lane (update_self s.pc t g.pc) in
      let reads = update_lane read_lane s.pc t g.pc (g.writer ∙ sym mine) in
      record {
        inv = Inv-lanes (sym (reads other)) (sym now) g.inv;
        write_lock =
            ap (λ l. g.next.write_lock + occupied l) now
            ∙ g.side
            ∙ ap (λ l. s.pipe.write_lock + occupied l) was
            ∙ v.write_lock;
        read_lock = ap₂ (λ a l. a + occupied l) g.other_side (reads other) ∙ v.read_lock;
        other_writers = λ u ne. ap write_lane (update_ne s.pc t u g.pc ne) ∙ v.other_writers u ne;
        other_readers = λ u ne. reads u ∙ v.other_readers u ne;
        reader_begins = update_all ReaderBegins s.pc t g.pc g.reader_begins v.reader_begins;
        writer_begins = update_all WriterBegins s.pc t g.pc g.writer_begins v.writer_begins;
      }
