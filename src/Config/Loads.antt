-- ===== src/Config/Loads.antt =====
-- When the configuration is loaded.
use Prim.Native.String.{len}
use mathlib.Core.Option.{some-injective}
use mgp.Base.{
  ◌≡◌, ◌≢◌, ◌⊎◌, eq_iff, ◌↔◌, ◌≤◌, refl, sym, ap, ◌∙◌, subst, Bool, Bool-cases, true, false, inl,
  inr, String, Option, none, some, ◌==◌, ◌||◌, text_equality, ltb, ok, err, arith, Result,
}
use mgp.Config.{Config, flag, config_of, load_checked, load_flags, load, or_default}

abbrev config_or : Config → Result Config → Config
config_or c (ok d) = d
config_or c (err _) = c

checked-ok :
    (c d : Config)
    → load_checked c ≡ ok d
    → (c ≡ d) × ((c.database_url == "") ≡ false) × (32 ≤ len c.session_key)
checked-ok c d h = elim (Bool-cases (c.database_url == "")) [
  | inl e ↦ let k = rw e at h in cc
  | inr e ↦ elim (Bool-cases (ltb (len c.session_key) 32)) [
    | inl short ↦ let k = rw (e, short) at h in cc
    | inr long ↦ (ap (config_or c) (rw (e, long) at h), e, ground arith)
  ]
]

-- A variable's value, or a default where it is missing.
abbrev pub IsSetting : String → String → String → Type 0
IsSetting value default got = ((value ≡ "") × (got ≡ default)) ⊎ ((value ≢ "") × (got ≡ value))

abbrev pub IsYes : String → Type 0
IsYes value =
    (value ≡ "1")
    ⊎ (value ≡ "t")
    ⊎ (value ≡ "T")
    ⊎ (value ≡ "true")
    ⊎ (value ≡ "TRUE")
    ⊎ (value ≡ "True")

abbrev pub IsNo : String → Type 0
IsNo value =
    (value ≡ "0")
    ⊎ (value ≡ "f")
    ⊎ (value ≡ "F")
    ⊎ (value ≡ "false")
    ⊎ (value ≡ "FALSE")
    ⊎ (value ≡ "False")

-- A flag as it is spelled, or a default where it is missing.
abbrev pub IsFlag : String → Bool → Bool → Type 0
IsFlag value default got =
    ((value ≡ "") × (got ≡ default)) ⊎ (IsYes value × (got ≡ true)) ⊎ (IsNo value × (got ≡ false))

abbrev yes : String → Bool
yes value =
    value == "1"
    || value == "t"
    || value == "T"
    || value == "true"
    || value == "TRUE"
    || value == "True"

abbrev no : String → Bool
no value =
    value == "0"
    || value == "f"
    || value == "F"
    || value == "false"
    || value == "FALSE"
    || value == "False"

yes_iff : (value : String) → (yes value ≡ true) ↔ IsYes value
yes_iff value = ground (
  arith,
  eq_iff value "1",
  eq_iff value "t",
  eq_iff value "T",
  eq_iff value "true",
  eq_iff value "TRUE",
  eq_iff value "True",
)

no_iff : (value : String) → (no value ≡ true) ↔ IsNo value
no_iff value = ground (
  arith,
  eq_iff value "0",
  eq_iff value "f",
  eq_iff value "F",
  eq_iff value "false",
  eq_iff value "FALSE",
  eq_iff value "False",
)

yes-apart : (value : String) → IsYes value → ((value == "") ≡ false) × (no value ≡ false)
yes-apart value h = elim h [
  | inl e ↦ rw e (refl, refl)
  | inr (inl e) ↦ rw e (refl, refl)
  | inr (inr (inl e)) ↦ rw e (refl, refl)
  | inr (inr (inr (inl e))) ↦ rw e (refl, refl)
  | inr (inr (inr (inr (inl e)))) ↦ rw e (refl, refl)
  | inr (inr (inr (inr (inr e)))) ↦ rw e (refl, refl)
]

no-apart : (value : String) → IsNo value → ((value == "") ≡ false) × (yes value ≡ false)
no-apart value h = elim h [
  | inl e ↦ rw e (refl, refl)
  | inr (inl e) ↦ rw e (refl, refl)
  | inr (inr (inl e)) ↦ rw e (refl, refl)
  | inr (inr (inr (inl e))) ↦ rw e (refl, refl)
  | inr (inr (inr (inr (inl e)))) ↦ rw e (refl, refl)
  | inr (inr (inr (inr (inr e)))) ↦ rw e (refl, refl)
]

flag_iff :
    (default got : Bool) (value : String)
    → (flag default value ≡ some got) ↔ IsFlag value default got
flag_iff default got value = (
  λ h. elim (Bool-cases (value == "")) [
    | inl e ↦ inl ((eq_iff value "").0 e, sym (some-injective _ _ (rw e at h)))
    | inr e ↦ elim (Bool-cases (yes value)) [
      | inl y ↦ inr (inl ((yes_iff value).0 y, sym (some-injective _ _ (rw (e, y) at h))))
      | inr y ↦ elim (Bool-cases (no value)) [
        | inl n ↦ inr (inr ((no_iff value).0 n, sym (some-injective _ _ (rw (e, y, n) at h))))
        | inr n ↦ let k = rw (e, y, n) at h in cc
      ]
    ]
  ],
  λ h. elim h [
    | inl (absent, same) ↦ rw ((eq_iff value "").1 absent) (ap some (sym same))
    | inr (inl (spelled, same)) ↦
        rw ((yes-apart value spelled).0, (yes_iff value).1 spelled) (ap some (sym same))
    | inr (inr (spelled, same)) ↦
        rw ((no-apart value spelled).0, (no-apart value spelled).1, (no_iff value).1 spelled)
          (ap some (sym same))
  ],
)

IsSetting-iff :
    (value default got : String) → (got ≡ or_default value default) ↔ IsSetting value default got
IsSetting-iff value default got = ground (arith, eq_iff value "")

-- The configuration that an environment gives, member by member.
abbrev pub IsLoaded : (String → String) → Config → Type 0
IsLoaded env c =
    IsSetting (env "MGP_ADDR") ":8080" c.addr
    × ((c.database_url ≡ env "MGP_DATABASE_URL") × (c.database_url ≢ ""))
    × ((c.session_key ≡ env "MGP_SESSION_KEY") × (32 ≤ len c.session_key))
    × IsSetting (env "MGP_DOCUMENT_DIR") "data/documents" c.document_dir
    × IsFlag (env "MGP_SECURE_COOKIE") true c.secure_cookie
    × IsFlag (env "MGP_SHOW_TEST_CREDENTIALS") false c.show_test_credentials

module _ (env : String → String) where
  loaded :
      (first second : Option Bool) (c : Config)
      → flag true (env "MGP_SECURE_COOKIE") ≡ first
      → flag false (env "MGP_SHOW_TEST_CREDENTIALS") ≡ second
      → load_flags env first second ≡ ok c
      → IsLoaded env c
  loaded none second c e f h = cc
  loaded (some a) none c e f h = cc
  loaded (some a) (some b) c e f h =
      let (same, present, long) = checked-ok (config_of env a b) c h in
      subst (IsLoaded env) same (
        (IsSetting-iff (env "MGP_ADDR") ":8080" _).0 refl,
        (refl, λ absent. let test = (eq_iff (env "MGP_DATABASE_URL") "").1 absent in cc),
        (refl, long),
        (IsSetting-iff (env "MGP_DOCUMENT_DIR") "data/documents" _).0 refl,
        (flag_iff true a (env "MGP_SECURE_COOKIE")).0 e,
        (flag_iff false b (env "MGP_SHOW_TEST_CREDENTIALS")).0 f,
      )

  complete-ok : (c : Config) → c.database_url ≢ "" → 32 ≤ len c.session_key → load_checked c ≡ ok c
  complete-ok c present long =
      let enough : ltb (len c.session_key) 32 ≡ false = ground arith in
      let named : (c.database_url == "") ≡ false = ground (arith, eq_iff c.database_url "") in
      rw (named, enough) refl

-- The server starts with a configuration exactly when each member of it is what the environment
-- says: the address and the directory of the documents as their variables say, or ":8080" and
-- "data/documents" where these are missing; the address of the database and the key of the sessions
-- as their variables say, where the one is not missing and the other has at least 32 bytes; and both
-- flags as they are spelled, in one of Go's spellings of Booleans, or secure cookies on and test
-- credentials off where these are missing.
pub load_iff : (env : String → String) (c : Config) → (load env ≡ ok c) ↔ IsLoaded env c
unfolding load
load_iff env c = (
  λ h. loaded env _ _ c refl refl h,
  λ (addr, (url, present), (key, long), directory, secure, shown).
      let same : config_of env c.secure_cookie c.show_test_credentials ≡ c =
        rw
          (
            sym ((IsSetting-iff (env "MGP_ADDR") ":8080" c.addr).1 addr),
            sym (
                (IsSetting-iff (env "MGP_DOCUMENT_DIR") "data/documents" c.document_dir).1
                  directory),
            sym url,
            sym key,
          )
          refl in
      rw
        (
          (flag_iff true c.secure_cookie (env "MGP_SECURE_COOKIE")).1 secure,
          (flag_iff false c.show_test_credentials (env "MGP_SHOW_TEST_CREDENTIALS")).1 shown,
        )
        (ap load_checked same ∙ complete-ok env c present long),
)
