-- ===== src/Model/Observation/Artifacts.antt =====
-- The artifacts that `validateBackendObservation` of internal/model/observation.go accepts.
use waldo.Base.{
  ◌≡◌, subst, true, false, some, List, [], ◌∷◌, ◌++◌, any, length, arith, Option-cases, inl, inr,
}
use waldo.Base.Bytes.{Bytes, codes, bytes_eq, bytes_eq_iff}
use waldo.Base.Int.{ℤ, pos}
use waldo.Base.Strings.{has_prefix}
use waldo.Base.Results.{ok, bind_ok}
use waldo.Training.Protocol.{Artifact}
use waldo.Model.Observation.{
  File, Files, int_eq, check_stat, check_artifact_file, check_content, verify_artifact_file,
  validate_artifact, validate_artifacts,
}

module _ (files : Files) where
  -- The file of the artifact has the size and the digest that the backend reported.
  pub record IsVerified (artifact : Artifact) : Type 0 where
    pub file : File
    pub content : Bytes
    pub found : files.stat artifact.path ≡ some file
    pub regular : file.regular ≡ true
    pub readable : file.content ≡ some content
    pub size : pos (length content) ≡ artifact.bytes
    pub digest : files.sha256_hex content ≡ artifact.sha256

  -- The path is canonical and lies beneath `artifacts/`.
  pub record IsBeneath (path : Bytes) : Type 0 where
    pub relative : files.is_abs path ≡ false
    pub canonical : files.clean path ≡ path
    pub beneath : has_prefix path (codes "artifacts/") ≡ true

  -- Each artifact is verified, and its path is none of those before it.
  abbrev pub AreSound : List Bytes → List Artifact → Type 0
  AreSound seen [] = Unit {0}
  AreSound seen (artifact ∷ artifacts) =
      (IsBeneath artifact.path × IsVerified artifact × (any (bytes_eq artifact.path) seen ≡ false))
      × AreSound (artifact.path ∷ seen) artifacts

  -- The paths seen after the artifacts.
  abbrev pub seen_after : List Bytes → List Artifact → List Bytes
  seen_after seen [] = seen
  seen_after seen (artifact ∷ artifacts) = seen_after (artifact.path ∷ seen) artifacts

  pub AreSound-append :
      (seen : List Bytes) (xs ys : List Artifact)
      → AreSound seen xs
      → AreSound (seen_after seen xs) ys
      → AreSound seen (xs ++ ys)
  AreSound-append seen [] ys h k = k
  AreSound-append seen (x ∷ xs) ys h k = (h.0, AreSound-append (x.path ∷ seen) xs ys h.1 k)

pub int_eq_sound : (a b : ℤ) → int_eq a b ≡ true → a ≡ b
unfolding int_eq
int_eq_sound a b h = ground arith

module _ (files : Files) where
  verify_artifact_file-IsVerified :
      (artifact : Artifact)
      → verify_artifact_file files artifact.path artifact ≡ ok tt
      → IsVerified files artifact
  unfolding verify_artifact_file check_artifact_file check_stat check_content
  verify_artifact_file-IsVerified artifact h = elim (Option-cases (files.stat artifact.path)) [
    | inl missing ↦ absurd (ground (arith, missing))
    | inr (file, found) ↦ elim (Option-cases file.content) [
      | inl unreadable ↦ absurd (ground (arith, found, unreadable))
      | inr (content, readable) ↦ record {
        file = file;
        content = content;
        found = found;
        regular = ground (arith, found, readable);
        readable = readable;
        size = int_eq_sound (pos (length content)) artifact.bytes (ground (arith, found, readable));
        digest =
            (bytes_eq_iff (files.sha256_hex content) artifact.sha256).0
              (ground (arith, found, readable));
      }
    ]
  ]

  -- What the tests of `validateArtifact` say of the cleaned path.
  abbrev Accepts : List Bytes → List Bytes → Artifact → Bytes → Type 0
  Accepts seen seen' artifact clean =
      (seen' ≡ clean ∷ seen)
      × (has_prefix clean (codes "artifacts/") ≡ true)
      × (any (bytes_eq clean) seen ≡ false)
      × (verify_artifact_file files clean artifact ≡ ok tt)

  validate_artifact-Accepts :
      (seen seen' : List Bytes) (artifact : Artifact)
      → validate_artifact files seen artifact ≡ ok seen'
      → (files.is_abs artifact.path ≡ false)
        × (bytes_eq (files.clean artifact.path) artifact.path ≡ true)
        × Accepts seen seen' artifact (files.clean artifact.path)
  unfolding validate_artifact
  validate_artifact-Accepts seen seen' artifact h = ground arith

  validate_artifact_sound :
      (seen seen' : List Bytes) (artifact : Artifact)
      → validate_artifact files seen artifact ≡ ok seen'
      → (seen' ≡ artifact.path ∷ seen)
        × IsBeneath files artifact.path
        × IsVerified files artifact
        × (any (bytes_eq artifact.path) seen ≡ false)
  validate_artifact_sound seen seen' artifact h =
      let (relative, same, accepted) = validate_artifact-Accepts seen seen' artifact h in
      let canonical : files.clean artifact.path ≡ artifact.path =
        (bytes_eq_iff (files.clean artifact.path) artifact.path).0 same in
      let (kept, beneath, new, verified) = subst (Accepts seen seen' artifact) canonical accepted in
      (
        kept,
        record { relative = relative; canonical = canonical; beneath = beneath },
        verify_artifact_file-IsVerified artifact verified,
        new,
      )

  pub validate_artifacts_sound :
      (artifacts : List Artifact) (seen seen' : List Bytes)
      → validate_artifacts files seen artifacts ≡ ok seen'
      → AreSound files seen artifacts × (seen' ≡ seen_after files seen artifacts)
  unfolding validate_artifacts
  validate_artifacts_sound [] seen seen' h = (tt, ground arith)
  validate_artifacts_sound (artifact ∷ artifacts) seen seen' h =
      let (middle, e0, h0) = bind_ok (validate_artifact files seen artifact) _ h in
      let (kept, beneath, verified, new) = validate_artifact_sound seen middle artifact e0 in
      let (sound, after) =
        validate_artifacts_sound artifacts (artifact.path ∷ seen) seen' (rw kept at h0) in
      (((beneath, verified, new), sound), after)
