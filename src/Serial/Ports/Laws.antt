-- ===== src/Serial/Ports/Laws.antt =====
-- What a claim, its release and a removed port do to the reservations.
use cocktail_maker.Prelude.{
  ◌≡◌, refl, [], ◌∷◌, none, some, String, ◌==◌, String_eq, if◌then◌else◌, arith,
}
use cocktail_maker.Prelude.Assoc.{find, emplace, erase, find-emplace, find-erase}
use cocktail_maker.Serial.Ports.{PortTable, claim, drop_claim, find_devnode, release_by_devnode}

claim_inv :
    (table claimed : PortTable) (id devnode : String)
    → claim table id devnode ≡ some claimed
    → (find id table ≡ none) × (claimed ≡ emplace id devnode table)
unfolding claim
claim_inv table claimed id devnode h = ground arith

pub claim_lem :
    (table : PortTable) (id devnode : String)
    → claim table id devnode
      ≡ elim (find id table) [ some entry ↦ none | none ↦ some (emplace id devnode table) ]
unfolding claim
claim_lem table id devnode = refl

pub claim_free :
    (table : PortTable) (id devnode : String)
    → find id table ≡ none
    → claim table id devnode ≡ some (emplace id devnode table)
unfolding claim
claim_free table id devnode h = ground arith

pub claim_taken :
    (table : PortTable) (id devnode d : String)
    → find id table ≡ some d
    → claim table id devnode ≡ none
unfolding claim
claim_taken table id devnode d h = ground arith

-- A claim that is granted reserves an identity without an entry, and changes no other entry; dropped
-- again, it leaves every entry as it was.
pub find-claim :
    (table claimed : PortTable) (id devnode j : String)
    → claim table id devnode ≡ some claimed
    → (find id table ≡ none)
      × (find j claimed ≡ (if id == j then some devnode else find j table))
      × (find j (drop_claim claimed id) ≡ find j table)
unfolding drop_claim
find-claim table claimed id devnode j h =
    let (free, e) = claim_inv table claimed id devnode h in
    ground (
      arith,
      find-emplace id j devnode table,
      find-erase id j claimed,
      find-erase id j (emplace id devnode table),
      String_eq.equal_iff id j,
    )

find_devnode-emplace :
    (table : PortTable) (id devnode : String)
    → find_devnode table devnode ≡ none
    → find id table ≡ none
    → find_devnode (emplace id devnode table) devnode ≡ some id
unfolding find_devnode emplace find
find_devnode-emplace [] id devnode h n = ground (arith, String_eq.equal_iff devnode devnode)
find_devnode-emplace ((i, d) ∷ table) id devnode h n =
    ground (arith, find_devnode-emplace table id devnode)

release_found :
    (table : PortTable) (id devnode : String)
    → find_devnode table devnode ≡ some id
    → release_by_devnode table devnode ≡ (erase id table, some id)
unfolding release_by_devnode
release_found table id devnode h = ground arith

-- Where no entry has the devnode, a granted claim of it is undone by the removal of the devnode.
pub release_by_devnode-claim :
    (table claimed : PortTable) (id devnode j : String)
    → find_devnode table devnode ≡ none
    → claim table id devnode ≡ some claimed
    → ((release_by_devnode claimed devnode).1 ≡ some id)
      × (find j (release_by_devnode claimed devnode).0 ≡ find j table)
release_by_devnode-claim table claimed id devnode j h g =
    let (free, e) = claim_inv table claimed id devnode g in
    let found =
      release_found (emplace id devnode table) id devnode
        (find_devnode-emplace table id devnode h free) in
    rw (e, found)
      (
        refl,
        ground (
          arith,
          find-emplace id j devnode table,
          find-erase id j (emplace id devnode table),
          String_eq.equal_iff id j,
        ),
      )
