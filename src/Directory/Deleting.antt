-- ===== src/Directory/Deleting.antt =====
-- `deleteDir` of src/device/Directory.cpp.
use lamina_fs.Prelude.{
  ℕ, suc, zero, ◌≤◌, ◌<◌, Bool, true, false, ◌≡◌, refl, sym, ap, subst, ◌∙◌, ◌⊎◌, not, none, some,
  if◌then◌else◌, arith, Bool-cases, Option-cases, inl, inr,
}
use lamina_fs.Types.{Text}
use lamina_fs.Directory.Calls.{
  Errno, Posix, FtsEntry, FtsInfo, fts_d, fts_default, fts_dp, fts_f, fts_sl, fts_slnone, fts_dc,
  fts_dot, fts_nsok, fts_ns, fts_dnr, fts_err, fts_other,
}
use lamina_fs.Directory.Removal.{visit_entry, delete_entries}

-- `fts_read` comes to an end: `remaining` bounds the entries that it will still return.
pub record IsFinite {W : Type 0} (os : Posix W) : Type 0 where
  pub remaining : W → ℕ
  pub reads :
      (fts : ℕ) (ent : FtsEntry) (w w' : W)
      → os.fts_read fts w ≡ (some ent, w')
      → remaining w' < remaining w
  pub removes : (p : Text) (w : W) → remaining (os.remove p w).1 ≤ remaining w
  pub sets : (e : Errno) (w : W) → remaining (os.set_errno e w) ≤ remaining w

module _ {W : Type 0} (os : Posix W) where
  -- The entries to remove: files, links, directories after what they hold, and those of another type.
  abbrev pub removable : FtsInfo → Bool
  removable fts_default = true
  removable fts_dp = true
  removable fts_f = true
  removable fts_sl = true
  removable fts_slnone = true
  removable _ = false

  -- The entries to leave: directories before what they hold, cycles, "." and "..", and the like.
  abbrev pub skippable : FtsInfo → Bool
  skippable fts_d = true
  skippable fts_dc = true
  skippable fts_dot = true
  skippable fts_nsok = true
  skippable fts_other = true
  skippable _ = false

  -- A traversal from state to state in which what is to be removed is removed, entry by entry, and
  -- no entry is one that could not be read.
  pub data Clears (fts : ℕ) : W → W → Type 0 where
    ends : {w w' : W} → os.fts_read fts w ≡ (none, w') → Clears fts w w'
    removes :
        {w v v' w' : W} (ent : FtsEntry)
        → os.fts_read fts w ≡ (some ent, v)
        → removable ent.fts_info ≡ true
        → os.remove ent.fts_accpath v ≡ (true, v')
        → Clears fts v' w'
        → Clears fts w w'
    skips :
        {w v w' : W} (ent : FtsEntry)
        → os.fts_read fts w ≡ (some ent, v)
        → skippable ent.fts_info ≡ true
        → Clears fts v w'
        → Clears fts w w'

  -- What a visit without a failure has done.
  abbrev Handles : FtsInfo → Text → W → W → Type 0
  Handles i p v v' =
      ((removable i ≡ true) × (os.remove p v ≡ (true, v'))) ⊎ ((skippable i ≡ true) × (v ≡ v'))

  removed :
      (p : Text) (v : W) → not (os.remove p v).0 ≡ false → os.remove p v ≡ (true, (os.remove p v).1)
  removed p v e = elim (Bool-cases (os.remove p v).0) [
    | inl done ↦ ap (λ b. (b, (os.remove p v).1)) done
    | inr kept ↦ let failed : not (os.remove p v).0 ≡ true = ap not kept in cc
  ]

  visit_entry-Handles :
      (ent : FtsEntry) (v : W)
      → (visit_entry os ent v).0 ≡ false
      → Handles ent.fts_info ent.fts_accpath v (visit_entry os ent v).1
  unfolding visit_entry
  visit_entry-Handles ent v = by_info ent.fts_info
    where
      by_info :
          (i : FtsInfo)
          → (visit_entry os (record ent { fts_info = i }) v).0 ≡ false
          → Handles i ent.fts_accpath v (visit_entry os (record ent { fts_info = i }) v).1
      by_info fts_d e = inr (refl, refl)
      by_info fts_default e = inl (refl, removed ent.fts_accpath v e)
      by_info fts_dp e = inl (refl, removed ent.fts_accpath v e)
      by_info fts_f e = inl (refl, removed ent.fts_accpath v e)
      by_info fts_sl e = inl (refl, removed ent.fts_accpath v e)
      by_info fts_slnone e = inl (refl, removed ent.fts_accpath v e)
      by_info fts_dc e = inr (refl, refl)
      by_info fts_dot e = inr (refl, refl)
      by_info fts_nsok e = inr (refl, refl)
      by_info fts_ns e = cc
      by_info fts_dnr e = cc
      by_info fts_err e = cc
      by_info fts_other e = inr (refl, refl)

  visited :
      (fts : ℕ) (ent : FtsEntry) (w v w' : W)
      → os.fts_read fts w ≡ (some ent, v)
      → (visit_entry os ent v).0 ≡ false
      → Clears fts (visit_entry os ent v).1 w'
      → Clears fts w w'
  visited fts ent w v w' read good rest = elim (visit_entry-Handles ent v good) [
    | inl (kind, done) ↦ removes ent read kind done rest
    | inr (kind, same) ↦ skips ent read kind (subst (λ u. Clears fts u w') (sym same) rest)
  ]

  module _ (finite : IsFinite os) where
    visit_entry-remaining :
        (ent : FtsEntry) (w : W) → finite.remaining (visit_entry os ent w).1 ≤ finite.remaining w
    unfolding visit_entry
    visit_entry-remaining ent w = by_info ent.fts_info
      where
        by_info :
            (i : FtsInfo)
            → finite.remaining (visit_entry os (record ent { fts_info = i }) w).1
              ≤ finite.remaining w
        by_info fts_d = omega arith
        by_info fts_default = finite.removes ent.fts_accpath w
        by_info fts_dp = finite.removes ent.fts_accpath w
        by_info fts_f = finite.removes ent.fts_accpath w
        by_info fts_sl = finite.removes ent.fts_accpath w
        by_info fts_slnone = finite.removes ent.fts_accpath w
        by_info fts_dc = omega arith
        by_info fts_dot = omega arith
        by_info fts_nsok = omega arith
        by_info fts_ns = finite.sets ent.fts_errno w
        by_info fts_dnr = finite.sets ent.fts_errno w
        by_info fts_err = finite.sets ent.fts_errno w
        by_info fts_other = omega arith

    -- How the loop ends: in an entry that fails, or with all of them visited.
    pub delete_entries-ends :
        (fuel fts : ℕ) (w : W)
        → finite.remaining w < fuel
        → (error : Bool) × (w' : W) × (delete_entries os fuel fts (os.fts_read fts w)
            ≡ some (error, w'))
          × (error ≡ false → Clears fts w w')
    unfolding delete_entries
    delete_entries-ends zero fts w lt = absurd (omega arith)
    delete_entries-ends (suc fuel) fts w lt =
        let v = (os.fts_read fts w).1 in
        elim (Option-cases (os.fts_read fts w).0) [
          | inl e ↦
              let read : os.fts_read fts w ≡ (none, v) = ap (λ o. (o, v)) e in
              (false, v, ap (delete_entries os (suc fuel) fts) read, λ f. ends read)
          | inr (ent, e) ↦
              let read : os.fts_read fts w ≡ (some ent, v) = ap (λ o. (o, v)) e in
              let v' = (visit_entry os ent v).1 in
              let less = finite.reads fts ent w v read in
              let kept = visit_entry-remaining ent v in
              elim (Bool-cases (visit_entry os ent v).0) [
                | inl bad ↦ (
                  true,
                  v',
                  ap (delete_entries os (suc fuel) fts) read
                      ∙ ap
                          (λ b.
                            if b
                            then some (true, v')
                            else delete_entries os fuel fts (os.fts_read fts v'))
                          bad,
                  λ f. cc,
                )
                | inr good ↦
                    let (error, w', answers, clears) =
                      delete_entries-ends fuel fts v' (omega arith) in
                    (
                      error,
                      w',
                      ap (delete_entries os (suc fuel) fts) read
                          ∙ ap
                              (λ b.
                                if b
                                then some (true, v')
                                else delete_entries os fuel fts (os.fts_read fts v'))
                              good
                          ∙ answers,
                      λ f. visited fts ent w v w' read good (clears f),
                    )
              ]
        ]
