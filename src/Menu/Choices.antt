-- ===== src/Menu/Choices.antt =====
-- Which text stands for which choice (the comparisons in the loop of `main`, src/main.c).
use mini_coin_slovak.Base.{ℕ, ◌-◌, ◌%◌, ◌^◌, ◌≡◌, ◌⊎◌, true, false, arith, Bool-cases, inl, inr}
use mini_coin_slovak.Base.Int.{ℤ, pos, negsuc}
use mini_coin_slovak.CLib.{Bytes, str_eq, str_eq_iff, codes}
use mini_coin_slovak.Menu.{Choice, mine, send, connect, quit, choose, uint16}

-- A text that is none of the choices.
pub record IsUnknown (text : Bytes) : Type 0 where
  pub not_1 : ¬ (text ≡ codes "1")
  pub not_2 : ¬ (text ≡ codes "2")
  pub not_3 : ¬ (text ≡ codes "3")
  pub not_4 : ¬ (text ≡ codes "4")
  pub not_5 : ¬ (text ≡ codes "5")
  pub not_6 : ¬ (text ≡ codes "6")
  pub not_7 : ¬ (text ≡ codes "7")
  pub not_q : ¬ (text ≡ codes "q")
  pub not_Q : ¬ (text ≡ codes "Q")

-- The texts that only print: 3, 4, 6 and 7, and whatever is not a choice.
pub data Prints (text : Bytes) : Type 0 where
  of_chain : text ≡ codes "3" → Prints text
  of_wallet : text ≡ codes "4" → Prints text
  of_network : text ≡ codes "6" → Prints text
  of_mempool : text ≡ codes "7" → Prints text
  of_mistake : IsUnknown text → Prints text

abbrev pub Quits : Bytes → Type 0
Quits text = (text ≡ codes "q") ⊎ (text ≡ codes "Q")

-- What a text that stands for a choice is.
abbrev pub Means : Bytes → Choice → Type 0
Means text mine = text ≡ codes "1"
Means text send = text ≡ codes "2"
Means text connect = text ≡ codes "5"
Means text quit = Quits text
Means text _ = Prints text

compared : (t s : Bytes) → ((str_eq t s ≡ true) × (t ≡ s)) ⊎ ((str_eq t s ≡ false) × (¬ (t ≡ s)))
compared t s = elim (Bool-cases (str_eq t s)) [
  | inl same ↦ inl (same, (str_eq_iff t s).0 same)
  | inr other ↦ inr (other, λ e. cc (other, (str_eq_iff t s).1 e))
]

pub choose-Means : (t : Bytes) → Means t (choose t)
unfolding choose
choose-Means t = elim (compared t (codes "1")) [
  | inl (e, is1) ↦ rw e is1
  | inr (e1, not1) ↦ rw e1 (elim (compared t (codes "2")) [
    | inl (e, is2) ↦ rw e is2
    | inr (e2, not2) ↦ rw e2 (elim (compared t (codes "3")) [
      | inl (e, is3) ↦ rw e (Prints.of_chain is3)
      | inr (e3, not3) ↦ rw e3 (elim (compared t (codes "4")) [
        | inl (e, is4) ↦ rw e (Prints.of_wallet is4)
        | inr (e4, not4) ↦ rw e4 (elim (compared t (codes "5")) [
          | inl (e, is5) ↦ rw e is5
          | inr (e5, not5) ↦ rw e5 (elim (compared t (codes "6")) [
            | inl (e, is6) ↦ rw e (Prints.of_network is6)
            | inr (e6, not6) ↦ rw e6 (elim (compared t (codes "7")) [
              | inl (e, is7) ↦ rw e (Prints.of_mempool is7)
              | inr (e7, not7) ↦ rw e7 (elim (compared t (codes "q")) [
                | inl (e, isq) ↦ rw e (inl isq)
                | inr (e8, notq) ↦ rw e8 (elim (compared t (codes "Q")) [
                  | inl (e, isQ) ↦ rw e (inr isQ)
                  | inr (e9, notQ) ↦ rw e9 (
                      Prints.of_mistake (record {
                        not_1 = not1;
                        not_2 = not2;
                        not_3 = not3;
                        not_4 = not4;
                        not_5 = not5;
                        not_6 = not6;
                        not_7 = not7;
                        not_q = notq;
                        not_Q = notQ;
                      }))
                ])
              ])
            ])
          ])
        ])
      ])
    ])
  ])
]

-- The low 16 bits of an int.
abbrev pub low16 : ℤ → ℕ
low16 (pos n) = n % 2 ^ 16
low16 (negsuc n) = 2 ^ 16 - 1 - n % 2 ^ 16

pub uint16-low16 : (port : ℤ) → uint16 port ≡ low16 port
uint16-low16 (pos n) = omega arith
uint16-low16 (negsuc n) = omega arith
