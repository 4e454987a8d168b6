-- ===== src/Delta/Safety.antt =====
-- What `apply` promises for any patch, also a damaged one (scripts/apk-delta.py).
use tiny_agent.Base.{
  String, ◌≡◌, none, some, [], str_eq, eq_iff, ◌==◌, ◌&&◌, Bytes, length, Result-cases, >>=-eq-ok,
  ok, err, Exception, guard, ◌⊎◌, ◌>>◌, Bool-cases, Option-cases, assertion, file_exists, inl, inr,
  arith,
}
use tiny_agent.Delta.{Plan}
use tiny_agent.Delta.Apply.{Disk, write_spans, reconstruct, publish, apply}

-- The output is new, and it is the file that the patch names.
pub record IsVerified (digest : Bytes → String) (old : Bytes) (plan : Plan) (before after : Disk)
    (stream : Bytes) : Type 0 where
  pub was_free : before.output ≡ none
  pub base : digest old ≡ plan.old
  pub written : after ≡ record { output = some stream; temporary = none }
  pub matches : digest stream ≡ plan.new
  pub sized : length stream ≡ plan.size

module _ (digest : Bytes → String) where
  last_check :
      (plan : Plan) (s stream : Bytes) (e : Exception)
      → (guard (length s == plan.size && str_eq (digest s) plan.new) e >> ok s) ≡ ok stream
      → (digest stream ≡ plan.new) × (length stream ≡ plan.size)
  last_check plan s stream e h = ground (arith, eq_iff (digest s) plan.new)

  reconstruct-facts :
      (old : Bytes) (plan : Plan) (stream : Bytes)
      → reconstruct digest old plan ≡ ok stream
      → (digest stream ≡ plan.new) × (length stream ≡ plan.size)
  unfolding reconstruct
  reconstruct-facts old plan stream h =
      let (s, e, h') = >>=-eq-ok (write_spans old plan.size plan.spans []) _ h in
      last_check plan s stream _ h'

  -- If `apply` returns, the output did not exist, the old file is the one that the patch was made
  -- for, and the disk holds the output, with the digest and the size of the patch, and no '.part'.
  -- If it raises, the disk is as it was. Both hold for every patch and every disk.
  pub apply-IsVerified :
      (old : Bytes) (plan : Plan) (before : Disk)
      → let (after, result) = apply digest old plan before in
        ((stream : Bytes) × (result ≡ ok (length stream, digest stream))
          × IsVerified digest old plan before after stream)
        ⊎ ((e : Exception) × (result ≡ err e) × (after ≡ before))
  unfolding apply publish
  apply-IsVerified old plan before = elim (Bool-cases (str_eq (digest old) plan.old)) [
    | inr no_base ↦ inr (assertion "Base APK differs", rw no_base, rw no_base)
    | inl base ↦ elim (Option-cases before.output) [
      | inr (apk, there) ↦
          inr (assertion "Refusing to replace an existing APK", ground arith, ground arith)
      | inl free ↦ elim (Option-cases before.temporary) [
        | inr (part, left) ↦ inr (file_exists ".part", ground arith, ground arith)
        | inl clean ↦ elim (Result-cases (reconstruct digest old plan)) [
          | inr (e, failed) ↦ inr (e, ground arith, ground arith)
          | inl (stream, done) ↦
              let (new, sized) = reconstruct-facts old plan stream done in
              inl (
                stream,
                ground arith,
                record {
                  was_free = free;
                  base = (eq_iff (digest old) plan.old).0 base;
                  written = ground arith;
                  matches = new;
                  sized = sized;
                },
              )
        ]
      ]
    ]
  ]
