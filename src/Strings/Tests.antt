-- ===== src/Strings/Tests.antt =====
-- Runs of the memory and string functions, and their theorems at concrete inputs.
use potato_os.Base.{ℕ, ◌≡◌, ◌≢◌, inr, refl, some, Mem, upd, arith, [], ◌∷◌, store_list}
use potato_os.Memory.{memcpy, memmove, memset}
use potato_os.Memory.Copy.{moved, memmove-moved, memcpy-moved, memset_lem}
use potato_os.Strings.{Reads, Strtok, strtok}
use potato_os.Strings.Compare.{IsBytes}
use potato_os.Strings.Token.{strtok_token}

-- "ab c" at 100 and a blank, the delimiter, at 200.
abbrev text : Mem
unfolding store_list upd
text = store_list (store_list (λ a. 0) 100 (0x61 ∷ 0x62 ∷ 0x20 ∷ 0x63 ∷ [])) 200 (0x20 ∷ [])

text-Reads : Reads text 100 (0x61 ∷ 0x62 ∷ 0x20 ∷ 0x63 ∷ [])
unfolding text
text-Reads = ground arith

blank-Reads : Reads text 200 (0x20 ∷ [])
unfolding text
blank-Reads = ground arith

text-IsBytes : IsBytes text
unfolding text
text-IsBytes a = ground arith

move_up : memmove 101 100 3 text 103 ≡ 0x20
unfolding memmove text
move_up = refl

memmove-moved_example : memmove 101 100 3 text 103 ≡ moved 0 3 101 100 text 103
memmove-moved_example = memmove-moved 101 100 3 text 103

memcpy-moved_example : memcpy 300 100 4 text 303 ≡ moved 0 4 300 100 text 303
memcpy-moved_example = memcpy-moved 300 100 4 text 303 (inr (omega arith))

memset_lem_example : memset 100 0x141 2 text 101 ≡ 0x41
memset_lem_example = memset_lem 100 0x141 2 text 101

strtok_token_example :
    (r : Strtok) × (strtok 9 0 100 200 text ≡ some r)
    × (r.token ≡ 100)
    × Reads r.memory 100 (0x61 ∷ 0x62 ∷ [])
    × (r.last ≡ 103)
    × ((a : ℕ) → a ≢ 102 → r.memory a ≡ text a)
unfolding text
strtok_token_example =
    strtok_token 200 (0x20 ∷ []) text blank-Reads (omega arith) 9 0 100 [] 0x61 (0x62 ∷ [])
      (0x20 ∷ 0x63 ∷ []) (omega arith) text-Reads tt (refl, (refl, tt)) refl (omega arith)
