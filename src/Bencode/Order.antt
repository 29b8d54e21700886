-- ===== src/Bencode/Order.antt =====
-- The order of a dictionary.
use sim_ims.Prelude.{◌≡◌, refl, ◌∙◌, ap, true, false, [], ◌∷◌, arith}
use sim_ims.Prelude.Text.{Text}
use sim_ims.Bencode.{Value, Entries, no_entries, entry}
use sim_ims.Bencode.Parse.{text_lt, insert_entry}

-- A key is before every key of the entries.
abbrev pub IsBelow : Text → Entries → Type 0
IsBelow k no_entries = Unit
IsBelow k (entry j w es) = (text_lt k j ≡ true) × IsBelow k es

-- The keys ascend, as those of a std::map do.
abbrev pub IsAscending : Entries → Type 0
IsAscending no_entries = Unit
IsAscending (entry k v es) = IsBelow k es × IsAscending es

abbrev AreBelow : Entries → Entries → Type 0
AreBelow no_entries es = Unit
AreBelow (entry k v ds) es = IsBelow k es × AreBelow ds es

-- dict[k] = v for each entry
abbrev pub insert_all : Entries → Entries → Entries
insert_all acc no_entries = acc
insert_all acc (entry k v es) = insert_all (insert_entry k v acc) es

abbrev join : Entries → Entries → Entries
join no_entries es = es
join (entry k v ds) es = entry k v (join ds es)

text_lt_asym : (s t : Text) → text_lt s t ≡ true → text_lt t s ≡ false
unfolding text_lt
text_lt_asym [] [] h = ground (arith, h)
text_lt_asym (c ∷ s) [] h = ground (arith, h)
text_lt_asym [] (d ∷ t) h = refl
text_lt_asym (c ∷ s) (d ∷ t) h = ground (arith, h, text_lt_asym s t)

insert_last :
    (acc : Entries) (k : Text) (v : Value) (es : Entries)
    → AreBelow acc (entry k v es)
    → insert_entry k v acc ≡ join acc (entry k v no_entries)
unfolding insert_entry
insert_last no_entries k v es h = refl
insert_last (entry j w acc) k v es h =
    let rest = insert_last acc k v es h.1 in
    let less = text_lt_asym j k h.0.0 in ground (arith, h, rest, less)

join_assoc :
    (acc : Entries) (k : Text) (v : Value) (es : Entries)
    → join (join acc (entry k v no_entries)) es ≡ join acc (entry k v es)
join_assoc no_entries k v es = refl
join_assoc (entry j w acc) k v es = ap (λ ds. entry j w ds) (join_assoc acc k v es)

below_next :
    (acc : Entries) (k : Text) (v : Value) (es : Entries)
    → AreBelow acc (entry k v es)
    → IsBelow k es
    → AreBelow (join acc (entry k v no_entries)) es
below_next no_entries k v es h below = (below, tt)
below_next (entry j w acc) k v es h below = (h.0.1, below_next acc k v es h.1 below)

join_none : (acc : Entries) → acc ≡ join acc no_entries
join_none no_entries = refl
join_none (entry k v acc) = ap (λ ds. entry k v ds) (join_none acc)

insert_all-join :
    (acc es : Entries) → AreBelow acc es → IsAscending es → insert_all acc es ≡ join acc es
insert_all-join acc no_entries h asc = join_none acc
insert_all-join acc (entry k v es) h asc = rw (insert_last acc k v es h) (
    insert_all-join (join acc (entry k v no_entries)) es (below_next acc k v es h asc.0) asc.1
    ∙ join_assoc acc k v es)

-- Ascending entries are inserted one after the other.
pub insert_all_ascending : (es : Entries) → IsAscending es → insert_all no_entries es ≡ es
insert_all_ascending es asc = insert_all-join no_entries es tt asc
