-- ===== src/Persistence/Store/Numbered.antt =====
-- A stream as the stores return it: each event with its number, gapless from a position.
use tellus.Prelude.{
  ℕ, zero, suc, ◌+◌, ◌≡◌, refl, ap, ◌∙◌, List, [], ◌∷◌, ◌++◌, length, take, drop, arith,
}
use tellus.Persistence.SeqNo.{SeqNo}
use tellus.Persistence.Store.{EncodedEvent, StoredEvent}

abbrev pub numbered : SeqNo → List EncodedEvent → List StoredEvent
numbered n [] = []
numbered n (e ∷ es) = record { seq_no = n; event = e } ∷ numbered (suc n) es

pub length-numbered : (n : SeqNo) (es : List EncodedEvent) → length (numbered n es) ≡ length es
length-numbered n [] = refl
length-numbered n (e ∷ es) = ap suc (length-numbered (suc n) es)

pub take-numbered :
    (k n : ℕ) (es : List EncodedEvent) → take k (numbered n es) ≡ numbered n (take k es)
take-numbered zero n es = refl
take-numbered (suc k) n [] = refl
take-numbered (suc k) n (e ∷ es) =
    ap (◌∷◌ (record { seq_no = n; event = e })) (take-numbered k (suc n) es)

-- Equal positions give equal streams.
pub numbered_at : {m n : ℕ} (es : List EncodedEvent) → m ≡ n → numbered m es ≡ numbered n es
numbered_at es h = rw h

pub drop-numbered :
    (k n : ℕ) (es : List EncodedEvent) → drop k (numbered n es) ≡ numbered (n + k) (drop k es)
drop-numbered zero n es = numbered_at {m = n} {n = n + 0} es (omega arith)
drop-numbered (suc k) n [] = refl
drop-numbered (suc k) n (e ∷ es) =
    drop-numbered k (suc n) es
    ∙ numbered_at {m = suc n + k} {n = n + suc k} (drop k es) (omega arith)

pub numbered-append :
    (n : ℕ) (xs ys : List EncodedEvent)
    → numbered n (xs ++ ys) ≡ numbered n xs ++ numbered (n + length xs) ys
numbered-append n [] ys = numbered_at {m = n} {n = n + 0} ys (omega arith)
numbered-append n (x ∷ xs) ys = ap (◌∷◌ (record { seq_no = n; event = x })) (
    numbered-append (suc n) xs ys
    ∙ ap (◌++◌ (numbered (suc n) xs))
        (numbered_at {m = suc n + length xs} {n = n + suc (length xs)} ys (omega arith)))
