-- ===== src/Sd/Consul/Tags.antt =====
-- sd/consul/instancer.go: which entries pass the filter.
use mathlib.Core.List.{Memᴰ}
use mathlib.Core.List.Memᴰ.{head, tail}
use kit_go.Prelude.{
  String, str_eq, str_eq_iff, Bool, true, false, ◌≡◌, ◌↔◌, inl, inr, refl, sym, subst, Bool-cases,
  List, [], ◌∷◌, All, arith, if◌then◌else◌,
}
use kit_go.Sd.Consul.{ServiceEntry, has_tag, has_tags, filter_entries}

has_tag_iff : (tag : String) (ts : List String) → (has_tag tag ts ≡ true) ↔ Memᴰ tag ts
unfolding has_tag
has_tag_iff tag [] = (λ h. cc, λ h. elim h [ ])
has_tag_iff tag (t ∷ ts) = (
  λ h. elim (Bool-cases (str_eq t tag)) [
    | inl p ↦ head (sym ((str_eq_iff t tag).0 p))
    | inr p ↦ tail ((has_tag_iff tag ts).0 (ground (arith, p)))
  ],
  λ h. elim h [
    | head e ↦ ground (arith, (str_eq_iff t tag).1 (sym e))
    | tail m ↦ ground (arith, (has_tag_iff tag ts).1 m)
  ],
)

has_tags_iff : (tags ts : List String) → (has_tags tags ts ≡ true) ↔ All (λ tag. Memᴰ tag ts) tags
unfolding has_tags
has_tags_iff [] ts = (λ h. tt, λ h. refl)
has_tags_iff (tag ∷ tags) ts = (
  λ h. ((has_tag_iff tag ts).0 (ground (arith, h)), (has_tags_iff tags ts).0 (ground (arith, h))),
  λ h. ground (arith, (has_tag_iff tag ts).1 h.0, (has_tags_iff tags ts).1 h.1),
)

-- A round of the filter.
kept :
    (e : ServiceEntry) (entries rest : List ServiceEntry) (tags : List String)
    (entry : ServiceEntry) (b : Bool)
    → has_tags tags e.tags ≡ b
    → (Memᴰ entry rest ↔ (Memᴰ entry entries × All (λ tag. Memᴰ tag entry.tags) tags))
    → Memᴰ entry (if b then e ∷ rest else rest)
      ↔ (Memᴰ entry (e ∷ entries) × All (λ tag. Memᴰ tag entry.tags) tags)
kept e entries rest tags entry true p (to, from) = (
  λ m. elim m [
    | head q ↦ (
      head q,
      subst (λ x. All (λ tag. Memᴰ tag x.tags) tags) (sym q) ((has_tags_iff tags e.tags).0 p),
    )
    | tail m' ↦ (tail (to m').0, (to m').1)
  ],
  λ (m, all). elim m [ head q ↦ head q | tail m' ↦ tail (from (m', all)) ],
)
kept e entries rest tags entry false p (to, from) = (
  λ m. (tail (to m).0, (to m).1),
  λ (m, all). elim m [
    | head q ↦
        let has =
          (has_tags_iff tags e.tags).1 (subst (λ x. All (λ tag. Memᴰ tag x.tags) tags) q all) in
        absurd (let no : ⊥ = ground (arith, has, p) in no)
    | tail m' ↦ from (m', all)
  ],
)

-- The filter keeps an entry of the list just if the entry has all the tags.
pub filter_entries_iff :
    (entries : List ServiceEntry) (tags : List String) (entry : ServiceEntry)
    → Memᴰ entry (filter_entries entries tags)
      ↔ (Memᴰ entry entries × All (λ tag. Memᴰ tag entry.tags) tags)
unfolding filter_entries
filter_entries_iff [] tags entry = (λ m. elim m [ ], λ (m, h). elim m [ ])
filter_entries_iff (e ∷ entries) tags entry =
    kept e entries (filter_entries entries tags) tags entry (has_tags tags e.tags) refl
      (filter_entries_iff entries tags entry)
