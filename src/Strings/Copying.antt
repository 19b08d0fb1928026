-- ===== src/Strings/Copying.antt =====
-- `strcpy` and `strncpy`.
use potato_os.Base.{
  ℕ, zero, suc, ◌+◌, ◌≤◌, ◌<◌, ◌≡◌, ◌≢◌, ◌⊎◌, ◌&&◌, some, ne→==, sym, ◌∙◌, Mem, upd, arith, ltb,
  leb, if◌then◌else◌, List, [], ◌∷◌, length,
}
use potato_os.Memory.Copy.{moved}
use potato_os.Strings.{Reads, strcpy, strncpy, strncpy_fill}

-- A string survives a write that is not at its bytes or its NUL.
pub Reads-upd :
    (m : Mem) (p a v : ℕ) (cs : List ℕ)
    → Reads m p cs
    → (a < p) ⊎ (p + length cs < a)
    → Reads (upd m a v) p cs
unfolding upd
Reads-upd m p a v [] s h = ground arith
Reads-upd m p a v (c ∷ cs) s h = (ground arith, s.1, Reads-upd m (p + 1) a v cs s.2 (omega arith))

-- `strcpy` ends, with any fuel above the length, and has moved the string and its NUL and nothing
-- else, if the destination does not begin inside the source.
strcpy-moved :
    (fuel dest src : ℕ) (cs : List ℕ) (m : Mem)
    → Reads m src cs
    → (dest ≤ src) ⊎ (src + length cs < dest)
    → length cs < fuel
    → (m' : Mem) × (strcpy fuel dest src m ≡ some m')
      × ((a : ℕ) → m' a ≡ moved 0 (suc (length cs)) dest src m a)
unfolding strcpy upd
strcpy-moved zero dest src cs m s apart enough = absurd (omega arith)
strcpy-moved (suc fuel) dest src [] m s apart enough =
    (upd m dest (m src), ground arith, λ a. ground arith)
strcpy-moved (suc fuel) dest src (c ∷ cs) m s apart enough =
    let (m', r, same) =
      strcpy-moved fuel (dest + 1) (src + 1) cs (upd m dest (m src))
        (Reads-upd m (src + 1) dest (m src) cs s.2 (omega arith)) (omega arith) (omega arith) in
    (m', ground arith, λ a. ground (arith, same a))

strncpy_fill_lem :
    (n dest : ℕ) (m : Mem) (a : ℕ)
    → strncpy_fill n dest m a ≡ (if leb dest a && ltb a (dest + n) then 0 else m a)
unfolding strncpy_fill upd
strncpy_fill_lem zero dest m a = ground arith
strncpy_fill_lem (suc n) dest m a = ground (arith, strncpy_fill_lem n (dest + 1) (upd m dest 0) a)

strncpy_end :
    (dest src n : ℕ) (m : Mem)
    → m src ≡ 0
    → strncpy dest src (suc n) m ≡ strncpy_fill (suc n) (dest + 1) (upd m dest (m src))
unfolding strncpy
strncpy_end dest src n m e = rw e

strncpy_next :
    (dest src n : ℕ) (m : Mem)
    → m src ≢ 0
    → strncpy dest src (suc n) m ≡ strncpy (dest + 1) (src + 1) n (upd m dest (m src))
unfolding strncpy
strncpy_next dest src n m e = rw (ne→== (m src) 0 e)

-- Byte `a` of a padded copy.
abbrev padded : (len n dest src : ℕ) → Mem → ℕ → ℕ
padded len n dest src m a =
    if leb (dest + len) a && leb a (dest + n) then 0 else moved 0 len dest src m a

padded-suc :
    (len n dest src : ℕ) (m : Mem) (a : ℕ)
    → (dest ≤ src) ⊎ (src + suc len < dest)
    → padded len n (dest + 1) (src + 1) (upd m dest (m src)) a
      ≡ padded (suc len) (suc n) dest src m a
unfolding upd
padded-suc len n dest src m a apart = ground arith

-- A source shorter than `n`: the string is moved, and zeros follow up to and including the byte at
-- `dest + n`, which is one byte more than the `n` that the caller gave.
strncpy_short :
    (dest src n : ℕ) (cs : List ℕ) (m : Mem) (a : ℕ)
    → Reads m src cs
    → (dest ≤ src) ⊎ (src + length cs < dest)
    → length cs < n
    → strncpy dest src n m a ≡ padded (length cs) n dest src m a
strncpy_short dest src zero cs m a s apart short = absurd (omega arith)
strncpy_short dest src (suc n) [] m a s apart short =
    rw (strncpy_end dest src n m s)
      (unfold upd in ground (arith, strncpy_fill_lem (suc n) (dest + 1) (upd m dest (m src)) a))
strncpy_short dest src (suc n) (c ∷ cs) m a s apart short =
    rw (strncpy_next dest src n m (λ e. s.1 (sym s.0 ∙ e))) (
      strncpy_short (dest + 1) (src + 1) n cs (upd m dest (m src)) a
        (Reads-upd m (src + 1) dest (m src) cs s.2 (omega arith)) (omega arith) (omega arith)
      ∙ padded-suc (length cs) n dest src m a apart)

-- So a buffer of `n` bytes overflows: the byte behind it becomes 0.
strncpy_overflow :
    (dest src n : ℕ) (cs : List ℕ) (m : Mem)
    → Reads m src cs
    → (dest ≤ src) ⊎ (src + length cs < dest)
    → length cs < n
    → strncpy dest src n m (dest + n) ≡ 0
strncpy_overflow dest src n cs m s apart short =
    ground (arith, strncpy_short dest src n cs m (dest + n) s apart short)
