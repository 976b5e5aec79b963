-- ===== src/Server/Loop/Apart.antt =====
-- A change by one thread keeps what the threads hold apart.
use rtp_server.Common.{ℕ, Bool, true, false, some, ◌≡◌, arith}
use rtp_server.Server.Loop.{
  Platform, Server, Pc, waiting, accepting, returned, exited, undefined, accepted, registered,
  looking, found, received, answered, hung_up, removed, erased,
}
use rtp_server.Server.Loop.Claims.{owns, makes, uses, IsTidy, IsBacked, AreApart}
use rtp_server.Server.Loop.Changes.{Shows, Change, stays, takes, opens, arms, disarms, maps, unmaps}

pub AreApart-sym : {p q : Pc} → AreApart p q → AreApart q p
AreApart-sym a = record { owners = λ fd e f. a.owners fd f e; makers = λ fd e f. a.makers fd f e }

uses-owns : (q : Pc) (fd : ℕ) → uses q ≡ some fd → owns q ≡ some fd
uses-owns (found x) fd e = e
uses-owns (received x b) fd e = e
uses-owns (answered x) fd e = e
uses-owns (hung_up x) fd e = e
uses-owns (removed x) fd e = e
uses-owns waiting fd e = ground arith
uses-owns accepting fd e = ground arith
uses-owns returned fd e = ground arith
uses-owns exited fd e = ground arith
uses-owns undefined fd e = ground arith
uses-owns (accepted x a) fd e = ground arith
uses-owns (registered x a) fd e = ground arith
uses-owns (looking x) fd e = ground arith
uses-owns (erased x) fd e = ground arith

-- A property of the state is one of the maps that it shows.
module _ (g : Platform) {s : Server g} {o a m : ℕ → Bool} (h : Shows g s o a m) where
  tidy : ((x : ℕ) → a x ≡ true → o x ≡ true) → ((x : ℕ) → m x ≡ true → o x ≡ true) → IsTidy g s
  tidy ao mo = record {
    armed_open = λ x e. ground (arith, h.shows_open x, h.shows_armed x, ao x);
    mapped_open = λ x e. ground (arith, h.shows_open x, h.shows_mapped x, mo x);
  }

  backed :
      {q : Pc}
      → ((x : ℕ) → owns q ≡ some x → (o x ≡ true) × (a x ≡ false))
      → ((x : ℕ) → makes q ≡ some x → (o x ≡ true) × (m x ≡ false))
      → ((x : ℕ) → uses q ≡ some x → m x ≡ true)
      → IsBacked g s q
  backed ow ma us = record {
    owned = λ x e. ground (arith, h.shows_open x, h.shows_armed x, ow x e);
    made = λ x e. ground (arith, h.shows_open x, h.shows_mapped x, ma x e);
    used = λ x e. ground (arith, h.shows_mapped x, us x e);
  }

module _ (g : Platform) {s s' : Server g} {p p' : Pc} (t : IsTidy g s) (b : IsBacked g s p) where
  pub Change-IsTidy : Change g s p s' p' → IsTidy g s'
  Change-IsTidy (stays k h) = tidy g h t.armed_open t.mapped_open
  Change-IsTidy (takes fd a o m u h) =
      tidy g h (λ x e. ground (arith, t.armed_open x)) t.mapped_open
  Change-IsTidy (opens fd c o m u h) =
      tidy g h (λ x e. ground (arith, t.armed_open x)) (λ x e. ground (arith, t.mapped_open x))
  Change-IsTidy (arms fd o o' k h) =
      tidy g h (λ x e. ground (arith, t.armed_open x, b.owned fd o)) t.mapped_open
  Change-IsTidy (disarms fd o k h) = tidy g h (λ x e. ground (arith, t.armed_open x)) t.mapped_open
  Change-IsTidy (maps fd c o m u h) =
      tidy g h t.armed_open (λ x e. ground (arith, t.mapped_open x, b.made fd c))
  Change-IsTidy (unmaps fd o us o' m u h) =
      tidy g h (λ x e. ground (arith, t.armed_open x, b.owned fd o))
        (λ x e. ground (arith, t.mapped_open x))

  -- The thread itself.
  pub Change-IsBacked : Change g s p s' p' → IsBacked g s' p'
  Change-IsBacked (stays k h) =
      backed g h (λ x e. b.owned x (k.keeps_owned x e)) (λ x e. b.made x (k.keeps_made x e))
        k.keeps_used
  Change-IsBacked (takes fd a o m u h) =
      backed g h (λ x e. ground (arith, t.armed_open fd)) (λ x e. ground arith)
        (λ x e. ground arith)
  Change-IsBacked (opens fd c o m u h) =
      backed g h (λ x e. ground (arith, t.armed_open fd)) (λ x e. ground (arith, t.mapped_open fd))
        (λ x e. ground arith)
  Change-IsBacked (arms fd o o' k h) =
      backed g h (λ x e. ground arith) (λ x e. b.made x (k.keeps_made x e)) k.keeps_used
  Change-IsBacked (disarms fd o k h) =
      backed g h (λ x e. ground (arith, b.owned x (k.keeps_owned x e)))
        (λ x e. b.made x (k.keeps_made x e)) k.keeps_used
  Change-IsBacked (maps fd c o m u h) =
      backed g h (λ x e. ground arith) (λ x e. ground arith) (λ x e. ground arith)
  Change-IsBacked (unmaps fd o us o' m u h) =
      backed g h (λ x e. ground arith) (λ x e. ground arith) (λ x e. ground arith)

  module _ {q : Pc} (c : IsBacked g s q) (ap : AreApart p q) where
    -- Another thread.
    pub Change-IsBacked_other : Change g s p s' p' → IsBacked g s' q
    Change-IsBacked_other (stays k h) = backed g h c.owned c.made c.used
    Change-IsBacked_other (takes fd a o m u h) =
        backed g h (λ x e. ground (arith, c.owned x e)) c.made c.used
    Change-IsBacked_other (opens fd n o m u h) =
        backed g h (λ x e. ground (arith, c.owned x e)) (λ x e. ground (arith, c.made x e)) c.used
    Change-IsBacked_other (arms fd o o' k h) =
        backed g h (λ x e. ground (arith, c.owned x e, ap.owners x)) c.made c.used
    Change-IsBacked_other (disarms fd o k h) =
        backed g h (λ x e. ground (arith, c.owned x e)) c.made c.used
    Change-IsBacked_other (maps fd n o m u h) =
        backed g h c.owned (λ x e. ground (arith, c.made x e, ap.makers x))
          (λ x e. ground (arith, c.used x e))
    Change-IsBacked_other (unmaps fd o us o' m u h) =
        backed g h (λ x e. ground (arith, c.owned x e, ap.owners x))
          (λ x e. ground (arith, c.made x e, b.used fd us))
          (λ x e. ground (arith, c.used x e, ap.owners x, uses-owns q x e))

    pub Change-AreApart : Change g s p s' p' → AreApart p' q
    Change-AreApart (stays k h) = record {
      owners = λ x e. ap.owners x (k.keeps_owned x e);
      makers = λ x e. ap.makers x (k.keeps_made x e);
    }
    Change-AreApart (takes fd a o m u h) = record {
      owners = λ x e f. ground (arith, c.owned x f);
      makers = λ x e f. ground arith;
    }
    Change-AreApart (opens fd n o m u h) = record {
      owners = λ x e f. ground (arith, c.owned x f);
      makers = λ x e f. ground (arith, c.made x f);
    }
    Change-AreApart (arms fd o o' k h) = record {
      owners = λ x e f. ground arith;
      makers = λ x e. ap.makers x (k.keeps_made x e);
    }
    Change-AreApart (disarms fd o k h) = record {
      owners = λ x e. ap.owners x (k.keeps_owned x e);
      makers = λ x e. ap.makers x (k.keeps_made x e);
    }
    Change-AreApart (maps fd n o m u h) = record {
      owners = λ x e f. ground arith;
      makers = λ x e f. ground arith;
    }
    Change-AreApart (unmaps fd o us o' m u h) = record {
      owners = λ x e f. ground arith;
      makers = λ x e f. ground arith;
    }
