-- ===== src/Perf/Texts.antt =====
-- src/perf.cpp: what a message becomes in the file.
use zth.Base.{
  ℕ, ◌+◌, ◌<◌, ◌^◌, ◌≡◌, refl, sym, ap, ◌∙◌, Bool-cases, inl, inr, List, [], ◌∷◌, ◌++◌,
  append_assoc, append-nil, none, some, if◌then◌else◌, if_true, if_false, arith,
}
use zth.Time.Stamp.{Timestamp, diff}
use zth.Perf.{
  Text, Line, escape, end_message, begin_message, message, unprintable, Vcd, wrote, fault, with_id,
  print_vcdd, write_chunks, write_event,
}
use zth.Perf.Ids.{Good, vcd_id-Good}

-- What the lines of a message print, where hex makes the two digits of a character; the last line
-- is first.
module _ (hex : ℕ → Text) where
  abbrev pub printed_line : Line → Text
  printed_line (escape chunk c) = chunk ++ 92 ∷ 120 ∷ hex c
  printed_line (end_message chunk id) = chunk
  printed_line _ = []

  abbrev pub printed : List Line → Text
  printed [] = []
  printed (l ∷ ls) = printed ls ++ printed_line l

  -- The message with every character but the last escaped where it must.
  abbrev pub escaped : Text → Text
  escaped [] = []
  escaped (c ∷ []) = c ∷ []
  escaped (c ∷ d ∷ cs) = (if unprintable c then 92 ∷ 120 ∷ hex c else c ∷ []) ++ escaped (d ∷ cs)

  printed-append :
      (ls : List Line) (l : Line) → printed (ls ++ l ∷ []) ≡ printed_line l ++ printed ls
  printed-append [] l = sym (append-nil (printed_line l))
  printed-append (k ∷ ls) l =
      ap (λ s. s ++ printed_line k) (printed-append ls l)
      ∙ append_assoc (printed_line l) (printed ls) (printed_line k)

  -- One character that is not the last.
  escaped_step :
      (chunk x : Text) (c d : ℕ) (cs : Text)
      → (if unprintable c then 92 ∷ 120 ∷ hex c else c ∷ []) ≡ x
      → (chunk ++ x) ++ escaped (d ∷ cs) ≡ chunk ++ escaped (c ∷ d ∷ cs)
  escaped_step chunk x c d cs e =
      append_assoc chunk x (escaped (d ∷ cs)) ∙ ap (λ y. chunk ++ (y ++ escaped (d ∷ cs))) (sym e)

  write_chunks_lem :
      (fiber : ℕ) (chunk : Text) (c : ℕ) (cs : Text) (v : Vcd)
      → fiber < 2 ^ 64
      → Good v.ids
      → (w : Vcd) × (ls : List Line) × (write_chunks (λ n. none) fiber chunk (c ∷ cs) v ≡ wrote w)
        × (w.vcdd ≡ ls ++ v.vcdd)
        × (w.vcd ≡ v.vcd)
        × (printed ls ≡ chunk ++ escaped (c ∷ cs))
  unfolding write_chunks with_id print_vcdd
  write_chunks_lem fiber chunk c [] v h g =
      let (id, next, e, i, k) = vcd_id-Good fiber v.ids h g in
      (
        record v {
          ids = next;
          vcdd = end_message (chunk ++ c ∷ []) id ∷ v.vcdd;
          calls = v.calls + 1;
        },
        end_message (chunk ++ c ∷ []) id ∷ [],
        ground (arith, e),
        refl,
        refl,
        refl,
      )
  write_chunks_lem fiber chunk c (d ∷ cs) v h g = elim (Bool-cases (unprintable c)) [
    | inl e ↦
        let line = escape chunk c in
        let w = record v { vcdd = line ∷ v.vcdd; calls = v.calls + 1 } in
        let (u, ls, q, r, s, t) = write_chunks_lem fiber [] d cs w h g in
        (
          u,
          ls ++ line ∷ [],
          if_true _ _ e ∙ q,
          r ∙ sym (append_assoc ls (line ∷ []) v.vcdd),
          s,
          printed-append ls line
              ∙ ap (λ y. printed_line line ++ y) t
              ∙ escaped_step chunk (92 ∷ 120 ∷ hex c) c d cs (if_true _ _ e),
        )
    | inr e ↦
        let (u, ls, q, r, s, t) = write_chunks_lem fiber (chunk ++ c ∷ []) d cs v h g in
        (u, ls, if_false _ _ e ∙ q, r, s, t ∙ escaped_step chunk (c ∷ []) c d cs (if_false _ _ e))
  ]

  -- If every fprintf() succeeds, a message that is not empty is printed with each character but
  -- the last escaped unless its code is from 33 to 126, after a line with its time, and the last
  -- one as it is. An empty one is read past its end.
  pub message_lem :
      (start t : Timestamp) (fiber c : ℕ) (cs : Text) (v : Vcd)
      → fiber < 2 ^ 64
      → Good v.ids
      → (write_event (λ n. none) start (message t fiber (some [])) v ≡ fault)
        × ((w : Vcd) × (ls : List Line) × (write_event
                (λ n. none)
                start
                (message t fiber (some (c ∷ cs)))
                v
              ≡ wrote w)
            × (w.vcdd ≡ ls ++ begin_message (diff t start) ∷ v.vcdd)
            × (w.vcd ≡ v.vcd)
            × (printed ls ≡ escaped (c ∷ cs)))
  unfolding write_event print_vcdd write_chunks
  message_lem start t fiber c cs v h g = (
    refl,
    write_chunks_lem fiber [] c cs
        (record v { vcdd = begin_message (diff t start) ∷ v.vcdd; calls = v.calls + 1 }) h g,
  )
