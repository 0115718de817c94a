-- ===== src/Commands/Authorized.antt =====
-- protocol/commands.py: what an authorization lets through.
use openframetap.Prelude.{
  ◌⊎◌, Option, some, ok, none, ◌>>=◌, ◌==◌, ap, subst, ==_iff, ◌||◌, inr, inl, Bool-cases,
  if◌then◌else◌, [], ◌∷◌, map, length, ℕ, List, refl, ◌>>◌, not, ◌&&◌, reject_if, arith, Bool,
  false, true,
}
use openframetap.Commands.{
  is_filled, is_dangerous, no_denied_override, digest_not_hexadecimal, empty_fields,
  CommandDefinition, SendAuthorization, assert_send_allowed, explicit_single_frame, single_command,
  is_denied, is_override,
}
use openframetap.Texts.{is_hexadecimal, all_of, is_blank, lower_letter, is_in}
use openframetap.Prelude.{◌↔◌, some, true, ok, ◌≡◌, none}
use openframetap.Bytes.{same_bytes_refl, same_bytes, same_bytes-eq}

-- The name is one of the names.
abbrev pub Among : List ℕ → List (List ℕ) → Type 0
Among name [] = ⊥
Among name (n ∷ names) = (name ≡ n) ⊎ Among name names

is_in-Among : (name : List ℕ) (names : List (List ℕ)) → (is_in name names ≡ true) ↔ Among name names
is_in-Among name [] = (λ h. absurd (cc h), λ h. absurd h)
is_in-Among name (n ∷ names) =
    let (out, back) = is_in-Among name names in
    elim (Bool-cases (same_bytes name n)) [
      | inl e ↦ (λ h. inl (same_bytes-eq name n e), λ h. rw e refl)
      | inr e ↦ (
        λ h. inr (out (rw e at h)),
        λ h. elim h [ inl same ↦ absurd (differs same e) | inr among ↦ rw e (back among) ],
      )
    ]
  where
    differs : name ≡ n → same_bytes name n ≡ false → ⊥
    differs same e = cc (e, subst (λ t. same_bytes name t ≡ true) same (same_bytes_refl name))

-- What a command that may be sent has: a listed name, and one that is approved explicitly if the
-- command says that it is dangerous or if the current phase does not allow it.
pub record Allowed (command : CommandDefinition) (a : SendAuthorization) : Type 0 where
  pub listed : Among command.name a.allowed_command_names
  pub dangerous :
      (c : ℕ) (cs : List ℕ)
      → command.danger ≡ some (c ∷ cs)
      → Among command.name a.explicitly_approved_denied_commands
  pub early :
      command.allowed_in_current_phase ≡ false
      → Among command.name a.explicitly_approved_denied_commands

or_true : (b : Bool) → (b || true) ≡ true
or_true true = refl
or_true false = refl

allow_lem :
    {E : Type 0} (x y : E) (d e l : Bool)
    → ((reject_if (d && not e) x >> reject_if (not l) y) ≡ ok tt)
      ↔ ((l ≡ true) × (d ≡ true → e ≡ true))
allow_lem x y true true true = (λ h. (refl, λ k. refl), λ h. refl)
allow_lem x y true false true = (λ h. ground arith, λ h. ground arith)
allow_lem x y false e true = (λ h. (refl, λ k. ground arith), λ h. refl)
allow_lem x y true true false = (λ h. ground arith, λ h. ground arith)
allow_lem x y true false false = (λ h. ground arith, λ h. ground arith)
allow_lem x y false e false = (λ h. ground arith, λ h. ground arith)

-- What is let through, by the tests of the code.
passes :
    (command : CommandDefinition) (a : SendAuthorization)
    → (assert_send_allowed command (some a) ≡ ok tt) ↔ (
        (is_in command.name a.allowed_command_names ≡ true)
        × (is_denied command ≡ true
            → is_in command.name a.explicitly_approved_denied_commands ≡ true))
unfolding assert_send_allowed
passes command a =
    allow_lem _ _ (is_denied command) (is_in command.name a.explicitly_approved_denied_commands)
      (is_in command.name a.allowed_command_names)

-- What is denied is dangerous or not of the current phase.
denied_for :
    (danger : Option (List ℕ)) (in_phase : Bool) (A : Type 0)
    → ((c : ℕ) (cs : List ℕ) → danger ≡ some (c ∷ cs) → A)
    → (in_phase ≡ false → A)
    → (is_filled danger || not in_phase) ≡ true
    → A
denied_for (some (c ∷ cs)) in_phase A danger early h = danger c cs refl
denied_for (some []) false A danger early h = early refl
denied_for (some []) true A danger early h = absurd (cc h)
denied_for none false A danger early h = early refl
denied_for none true A danger early h = absurd (cc h)

-- Nothing may be sent without an authorization; with one, exactly the commands whose names it lists
-- may, and of these the ones that state a danger and the ones outside the current phase only when
-- approved explicitly.
pub assert_send_allowed-Allowed :
    (command : CommandDefinition) (a : SendAuthorization)
    → ¬ (assert_send_allowed command none ≡ ok tt)
      × ((assert_send_allowed command (some a) ≡ ok tt) ↔ Allowed command a)
unfolding assert_send_allowed
assert_send_allowed-Allowed command a =
    let approved_names = a.explicitly_approved_denied_commands in
    let both = passes command a in
    let listing = is_in-Among command.name a.allowed_command_names in
    let approving = is_in-Among command.name approved_names in
    (
      λ h. ground arith,
      (
        λ h.
            (let (listed, approved) = both.0 h in
              record {
                listed = listing.0 listed;
                dangerous = λ c cs e. approving.0 (approved (rw e refl));
                early = λ e. approving.0 (approved (rw e (or_true (is_dangerous command))));
              }),
        λ h. both.1 (
          listing.1 h.listed,
          λ k. approving.1 (
              denied_for command.danger command.allowed_in_current_phase
                (Among command.name approved_names) h.dangerous h.early k),
        ),
      ),
    )

-- What has passed the checks of a do block.
passes_three :
    {E A : Type 0} (p q r : Bool) (x y z : E) (base v : A) (f : A → A)
    → (reject_if p x >> (reject_if q y >> ((reject_if r z >> ok base) >>= (λ b. ok (f b))))) ≡ ok v
    → (p ≡ false) × (q ≡ false) × (v ≡ f base)
passes_three true q r x y z base v f h = absurd (ground arith)
passes_three false true r x y z base v f h = absurd (ground arith)
passes_three false false true x y z base v f h = absurd (ground arith)
passes_three false false false x y z base v f h = (refl, refl, cc)

only_one : (name other : List ℕ) → is_in name (other ∷ []) ≡ true → name ≡ other
only_one name other h =
    same_bytes-eq name other
      (elim (Bool-cases (same_bytes name other)) [ inl e ↦ e | inr e ↦ absurd (ground arith) ])

-- What an authorization of one frame lets through.
pub record SingleFrame (command_name digest : List ℕ) (allow_denied_command : Bool)
    (a : SendAuthorization) (command : CommandDefinition) : Type 0 where
  pub name : command.name ≡ command_name
  pub digest_kept : a.approved_frame_sha256 ≡ some digest
  pub digest_length : length digest ≡ 64
  pub override :
      is_denied command ≡ true
      → (allow_denied_command ≡ true) × (is_override command_name digest ≡ true)

-- The authorization that is made for a frame.
abbrev pub for_frame : List ℕ → List ℕ → List ℕ → List ℕ → List ℕ → Bool → SendAuthorization
for_frame now command_name digest purpose approval_reference allow = record {
  allowed_command_names = command_name ∷ [];
  purpose = purpose;
  approval_reference = approval_reference;
  approved_at = now;
  explicitly_approved_denied_commands = if allow then command_name ∷ [] else [];
  approved_frame_sha256 = some digest;
}

made :
    (now command_name sha purpose approval_reference : List ℕ) (allow : Bool)
    (a : SendAuthorization)
    → explicit_single_frame now command_name sha purpose approval_reference allow ≡ ok a
    → (a ≡ for_frame now command_name (map lower_letter sha) purpose approval_reference allow)
      × (length (map lower_letter sha) ≡ 64)
      × (allow ≡ true → is_override command_name (map lower_letter sha) ≡ true)
unfolding explicit_single_frame single_command
made now command_name sha purpose approval_reference allow a e =
    let digest = map lower_letter sha in
    let base : SendAuthorization = record {
      allowed_command_names = command_name ∷ [];
      purpose = purpose;
      approval_reference = approval_reference;
      approved_at = now;
      explicitly_approved_denied_commands = [];
      approved_frame_sha256 = none;
    } in
    let (is_hex, reviewed, same) =
      passes_three (not (length digest == 64) || not (all_of is_hexadecimal digest))
        (allow && not (is_override command_name digest))
        (is_blank command_name || is_blank purpose || is_blank approval_reference)
        digest_not_hexadecimal (no_denied_override command_name) empty_fields base a
        (λ b. record b {
          explicitly_approved_denied_commands = if allow then command_name ∷ [] else [];
          approved_frame_sha256 = some digest;
        })
        e in
    (same, (==_iff (length digest) 64).0 (ground (arith, is_hex)), λ h. ground (arith, reviewed, h))

-- An authorization of a single frame lets through the command that it names and no other, and this one,
-- where it is dangerous or outside the current phase, only with permission and with the digest that the
-- table of reviewed frames has for it. The digest is kept, of 64 characters.
pub explicit_single_frame-SingleFrame :
    (now command_name sha purpose approval_reference : List ℕ) (allow : Bool)
    (a : SendAuthorization) (command : CommandDefinition)
    → explicit_single_frame now command_name sha purpose approval_reference allow ≡ ok a
    → assert_send_allowed command (some a) ≡ ok tt
    → SingleFrame command_name (map lower_letter sha) allow a command
explicit_single_frame-SingleFrame now command_name sha purpose approval_reference allow a command e
      h =
    let digest = map lower_letter sha in
    let (same, count, reviewed) = made now command_name sha purpose approval_reference allow a e in
    let (listed, approved) = (passes command a).0 h in
    let name : command.name ≡ command_name =
      only_one command.name command_name
        (subst (λ t. is_in command.name t.allowed_command_names ≡ true) same listed) in
    let explicit : is_denied command ≡ true → allow ≡ true = λ d.
      approved_only command.name command_name allow (
        subst (λ t. is_in command.name t.explicitly_approved_denied_commands ≡ true) same
          (approved d)) in
    record {
      name = name;
      digest_kept = ap (λ t. t.approved_frame_sha256) same;
      digest_length = count;
      override = λ d. (explicit d, reviewed (explicit d));
    }
  where
    approved_only :
        (name other : List ℕ) (b : Bool)
        → is_in name (if b then other ∷ [] else []) ≡ true
        → b ≡ true
    approved_only name other true h = refl
    approved_only name other false h = h
