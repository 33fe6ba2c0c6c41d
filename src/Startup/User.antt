-- ===== src/Startup/User.antt =====
-- src/edgebox.c: the user that the gateway runs as.
use edgebox.Prelude.{
  refl, ℕ, ◌≡◌, ◌≢◌, ◌↔◌, inl, inr, Bool, true, Option, none, some, arith, Option-cases, Bool-cases,
}
use edgebox.Prelude.Text.{Text}
use edgebox.Startup.{drop_root_priviledge}

-- The user is configured, known, not root itself, and the change succeeds.
abbrev pub Changes : (Text → Option ℕ) → Bool → Option Text → Type 0
Changes getpwnam setuid_ok username =
    (user : Text) × (pw_uid : ℕ) × (username ≡ some user)
    × (getpwnam user ≡ some pw_uid)
    × (pw_uid ≢ 0)
    × (setuid_ok ≡ true)

-- A process that was not started by root keeps its user; one that was is no longer root exactly if a
-- user is configured who is known and not root, and the change succeeds. The code goes on either way.
pub drop_root_priviledge_iff :
    (getpwnam : Text → Option ℕ) (setuid_ok : Bool) (username : Option Text) (uid : ℕ)
    → (uid ≢ 0 → drop_root_priviledge getpwnam setuid_ok username uid ≡ uid)
      × (drop_root_priviledge getpwnam setuid_ok username 0 ≢ 0
          ↔ Changes getpwnam setuid_ok username)
unfolding drop_root_priviledge
drop_root_priviledge_iff getpwnam setuid_ok none uid =
    ((λ ne. refl), ((λ ne. absurd (ne refl)), λ (user, pw, e, _, _, _). cc e))
drop_root_priviledge_iff getpwnam setuid_ok (some user) uid = (
  (λ ne. ground arith),
  elim (Option-cases (getpwnam user)) [
    | inl unknown ↦ ((λ ne. absurd (ne (rw unknown))), λ (other, pw, e, known, _, _). cc)
    | inr (pw_uid, known) ↦ elim (Bool-cases setuid_ok) [
      | inl done ↦ (
        (λ ne. (user, pw_uid, refl, known, (λ z. ne (rw (known, done) z)), done)),
        λ (other, pw, same, known', ne, _).
            λ z. let zero : pw_uid ≡ 0 = rw (known, done) at z in ne cc,
      )
      | inr failed ↦
          ((λ ne. absurd (ne (rw (known, failed)))), λ (other, pw, same, known', ne, done). cc)
    ]
  ],
)
