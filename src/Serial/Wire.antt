-- ===== src/Serial/Wire.antt =====
-- What a UART promises to the serial console of kernel/arch/i386/lib_c.c, and what is sent over it.
use potato_os.Base.{
  ℕ, zero, suc, ◌≤◌, ◌<◌, ◌≡◌, refl, ap, ◌∙◌, List, [], ◌∷◌, ◌++◌, some, bit_and, ◌==◌, Bool-cases,
  inl, inr, if◌then◌else◌, arith,
}
use potato_os.Ata.{Ports}
use potato_os.Serial.{tty, line_status, wait_status, send, putcc, printss}

module _ (ports : Ports) where
  open ports use {Controller, inb, outb}

  -- `sent` is what the wire took, `incoming` what has arrived and is not read yet. Bit 5 of the line
  -- status is a free transmitter, bit 0 a byte that has arrived.
  pub record Wire : Type 1 where
    pub IsOpen : Controller → Type 0
    pub sent : Controller → List ℕ
    pub incoming : Controller → List ℕ
    pub patience : ℕ
    -- The polls until the transmitter is free.
    pub busy : Controller → ℕ
    pub patient : {c : Controller} → IsOpen c → busy c < patience
    pub polled :
        {c : Controller} {wait : ℕ}
        → IsOpen c
        → busy c ≡ suc wait
        → (bit_and (inb line_status c).0 0x20 ≡ 0)
          × IsOpen (inb line_status c).1
          × (busy (inb line_status c).1 ≡ wait)
          × (sent (inb line_status c).1 ≡ sent c)
          × (incoming (inb line_status c).1 ≡ incoming c)
    pub free :
        {c : Controller}
        → IsOpen c
        → busy c ≡ 0
        → (bit_and (inb line_status c).0 0x20 ≡ 0x20)
          × IsOpen (inb line_status c).1
          × (busy (inb line_status c).1 ≡ 0)
          × (sent (inb line_status c).1 ≡ sent c)
          × (incoming (inb line_status c).1 ≡ incoming c)
    pub takes :
        {c : Controller} (v : ℕ)
        → IsOpen c
        → busy c ≡ 0
        → IsOpen (outb tty v c)
          × (sent (outb tty v c) ≡ sent c ++ (v ∷ []))
          × (incoming (outb tty v c) ≡ incoming c)
    pub arrived :
        {c : Controller} {v : ℕ} {vs : List ℕ}
        → IsOpen c
        → incoming c ≡ v ∷ vs
        → (bit_and (inb line_status c).0 0x01 ≡ 0x01)
          × IsOpen (inb line_status c).1
          × (incoming (inb line_status c).1 ≡ v ∷ vs)
    pub gives :
        {c : Controller} {v : ℕ} {vs : List ℕ}
        → IsOpen c
        → incoming c ≡ v ∷ vs
        → ((inb tty c).0 ≡ v) × IsOpen (inb tty c).1 × (incoming (inb tty c).1 ≡ vs)

-- The bytes on the wire for a byte of text.
abbrev pub on_wire : ℕ → List ℕ
on_wire c = if c == 0x0A then 0x0D ∷ c ∷ [] else c ∷ []

abbrev pub all_on_wire : List ℕ → List ℕ
all_on_wire [] = []
all_on_wire (c ∷ cs) = on_wire c ++ all_on_wire cs

++-assoc : (xs ys zs : List ℕ) → (xs ++ ys) ++ zs ≡ xs ++ (ys ++ zs)
++-assoc [] ys zs = refl
++-assoc (x ∷ xs) ys zs = ap (λ l. x ∷ l) (++-assoc xs ys zs)

pub ++-nil : (xs : List ℕ) → xs ≡ xs ++ []
++-nil [] = refl
++-nil (x ∷ xs) = ap (λ l. x ∷ l) (++-nil xs)

module _ (ports : Ports) (line : Wire ports) where
  open ports use {Controller, inb, outb}
  open line use {IsOpen, sent, incoming, patience, busy, patient, polled, free, takes}

  wait_status-free :
      (fuel wait : ℕ) (c : Controller)
      → wait < fuel
      → busy c ≡ wait
      → IsOpen c
      → (c' : Controller) × (wait_status ports fuel 0x20 c ≡ some c')
        × IsOpen c'
        × (busy c' ≡ 0)
        × (sent c' ≡ sent c)
        × (incoming c' ≡ incoming c)
  unfolding wait_status
  wait_status-free zero wait c h b o = absurd (omega arith)
  wait_status-free (suc fuel) zero c h b o =
      let (e, o', b', s, i) = free o b in ((inb line_status c).1, rw e refl, o', b', s, i)
  wait_status-free (suc fuel) (suc wait) c h b o =
      let (e, o', b', s, i) = polled o b in
      let (c', e', o'', b'', s', i') =
        wait_status-free fuel wait (inb line_status c).1 (omega arith) b' o' in
      (c', rw e e', o'', b'', s' ∙ s, i' ∙ i)

  -- The call sends `bs`, and what has arrived stays.
  abbrev pub IsSent : Controller → List ℕ → Controller → Type 0
  IsSent c bs c' = IsOpen c' × (sent c' ≡ sent c ++ bs) × (incoming c' ≡ incoming c)

  pub IsSent-join :
      {c c₁ c₂ : Controller} (xs ys : List ℕ)
      → IsSent c xs c₁
      → IsSent c₁ ys c₂
      → IsSent c (xs ++ ys) c₂
  IsSent-join {c} {c₁} {c₂} xs ys (o, s, i) (o', s', i') =
      (o', s' ∙ ap (λ l. l ++ ys) s ∙ ++-assoc (sent c) xs ys, i' ∙ i)

  send-IsSent :
      (fuel v : ℕ) (c : Controller)
      → patience ≤ fuel
      → IsOpen c
      → (c' : Controller) × (send ports fuel v c ≡ some c') × IsSent c (v ∷ []) c'
  unfolding send
  send-IsSent fuel v c enough o =
      let early = patient o in
      let (c₁, e, o₁, b₁, s₁, i₁) = wait_status-free fuel (busy c) c (omega arith) refl o in
      let (o₂, s₂, i₂) = takes v o₁ b₁ in
      (outb tty v c₁, rw (send, e) refl, (o₂, s₂ ∙ ap (λ l. l ++ (v ∷ [])) s₁, i₂ ∙ i₁))

  pub putcc-IsSent :
      (fuel v : ℕ) (c : Controller)
      → patience ≤ fuel
      → IsOpen c
      → (c' : Controller) × (putcc ports fuel v c ≡ some c') × IsSent c (on_wire v) c'
  putcc-IsSent fuel v c enough o = elim (Bool-cases (v == 0x0A)) [
    | inl e ↦
        let (c₁, e₁, s₁) = send-IsSent fuel 0x0D c enough o in
        let (c₂, e₂, s₂) = send-IsSent fuel v c₁ enough s₁.0 in
        (c₂, unfold putcc in rw (e, e₁, e₂) refl, rw e (IsSent-join (0x0D ∷ []) (v ∷ []) s₁ s₂))
    | inr e ↦
        let (c₁, e₁, s₁) = send-IsSent fuel v c enough o in
        (c₁, unfold putcc in rw (e, e₁) refl, rw e s₁)
  ]

  -- A text is sent with a carriage return in front of each line feed.
  pub printss-IsSent :
      (fuel : ℕ) (cs : List ℕ) (c : Controller)
      → patience ≤ fuel
      → IsOpen c
      → (c' : Controller) × (printss ports fuel cs c ≡ some c') × IsSent c (all_on_wire cs) c'
  unfolding printss
  printss-IsSent fuel [] c enough o = (c, refl, (o, ++-nil (sent c), refl))
  printss-IsSent fuel (d ∷ cs) c enough o =
      let (c₁, e₁, s₁) = putcc-IsSent fuel d c enough o in
      let (c₂, e₂, s₂) = printss-IsSent fuel cs c₁ enough s₁.0 in
      (c₂, rw (printss, e₁) e₂, IsSent-join (on_wire d) (all_on_wire cs) s₁ s₂)
