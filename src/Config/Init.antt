-- ===== src/Config/Init.antt =====
-- When `init_config` succeeds.
use bacs_legacy.Base.{
  Bool-cases, inl, inr, ℕ, ◌≡◌, ◌⊎◌, false, Option, none, some, Bytes, codes, ◌=ₛ◌, =ₛ_iff, arith,
}
use bacs_legacy.Config.{CfgEngine, Settings, Order, get, parse_order, init_config}

abbrev IsOrder : Bytes → Type 0
IsOrder t = (t ≡ codes "asc") ⊎ (t ≡ codes "desc") ⊎ (t ≡ codes "rand")

parse_order-IsOrder : (t : Bytes) (o : Order) → parse_order t ≡ some o → IsOrder t
unfolding parse_order
parse_order-IsOrder t o h = elim (Bool-cases (t =ₛ codes "asc")) [
  | inl e ↦ inl ((=ₛ_iff t (codes "asc")).0 e)
  | inr n ↦ elim (Bool-cases (t =ₛ codes "desc")) [
    | inl e ↦ inr (inl ((=ₛ_iff t (codes "desc")).0 e))
    | inr m ↦ elim (Bool-cases (t =ₛ codes "rand")) [
      | inl e ↦ inr (inr ((=ₛ_iff t (codes "rand")).0 e))
      | inr k ↦ cc (lem n m k)
    ]
  ]
]
  where
    lem :
        (t =ₛ codes "asc") ≡ false
        → (t =ₛ codes "desc") ≡ false
        → (t =ₛ codes "rand") ≡ false
        → parse_order t ≡ none
    lem n m k = rw (n, m, k, parse_order)

-- Settings come only from two files that can be read, the second one being named in the first, and
-- only if the order of submits is one of the three words.
init_config_succeeds :
    (read_ini : Bytes → Option CfgEngine) (attempts : ℕ) (c : Settings)
    → init_config read_ini attempts ≡ some c
    → (read_ini (codes "bacs2.conf") ≡ some c.config)
      × (read_ini c.langs_config ≡ some c.langs)
      × IsOrder (get c.config (codes "general.order"))
unfolding init_config
init_config_succeeds read_ini attempts c h = (
  ground arith,
  ground arith,
  parse_order-IsOrder (get c.config (codes "general.order")) c.order (ground arith),
)
