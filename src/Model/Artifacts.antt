-- ===== src/Model/Artifacts.antt =====
-- model/artifact.go: an artifact and the locations that it can have.
use theo_forge.Prelude.{Bool, Text, Option, List}
use theo_forge.Int.{ℤ}
use theo_forge.Model.Basic.{SecretKeySelector, ParameterModel}

pub record HttpHeaderSource : Type 0 where
  pub secret_key_ref : Option SecretKeySelector

pub record HttpHeader : Type 0 where
  pub name : Text
  pub value : Text
  pub value_from : Option HttpHeaderSource

pub record EndpointParam : Type 0 where
  pub key : Text
  pub value : Text

pub record OAuth2Auth : Type 0 where
  pub client_id_secret : Option SecretKeySelector
  pub client_secret_secret : Option SecretKeySelector
  pub token_url_secret : Option SecretKeySelector
  pub scopes : List Text
  pub endpoint_params : List EndpointParam

pub record BasicAuth : Type 0 where
  pub username_secret : Option SecretKeySelector
  pub password_secret : Option SecretKeySelector

pub record ClientCertAuth : Type 0 where
  pub client_cert_secret : Option SecretKeySelector
  pub client_key_secret : Option SecretKeySelector

pub record HttpAuth : Type 0 where
  pub oauth2 : Option OAuth2Auth
  pub basic_auth : Option BasicAuth
  pub client_cert : Option ClientCertAuth

pub record ArtifactoryModel : Type 0 where
  pub url : Text
  pub username_secret : Option SecretKeySelector
  pub password_secret : Option SecretKeySelector

pub record PluginModel : Type 0 where
  pub name : Text
  pub key : Text
  pub configuration : Text

pub record ArtifactGcSpec : Type 0 where
  pub strategy : Text
  pub service_account_name : Text
  pub pod_spec_patch : Text

pub record S3ArtifactModel : Type 0 where
  pub bucket : Text
  pub key : Text
  pub endpoint : Text
  pub region : Text
  pub insecure : Option Bool
  pub access_key_secret : Option SecretKeySelector
  pub secret_key_secret : Option SecretKeySelector

pub record GcsArtifactModel : Type 0 where
  pub bucket : Text
  pub key : Text
  pub service_account_key_secret : Option SecretKeySelector

pub record HttpArtifactModel : Type 0 where
  pub url : Text
  pub auth : Option HttpAuth
  pub headers : List HttpHeader

pub record GitArtifactModel : Type 0 where
  pub repo : Text
  pub revision : Text
  pub branch : Text
  pub depth : Option ℤ

pub record RawArtifactModel : Type 0 where
  pub raw_data : Text

pub record AzureArtifactModel : Type 0 where
  pub endpoint : Text
  pub container : Text
  pub blob : Text
  pub account_key_secret : Option SecretKeySelector

pub record OssArtifactModel : Type 0 where
  pub bucket : Text
  pub key : Text
  pub endpoint : Text
  pub access_key_secret : Option SecretKeySelector
  pub secret_key_secret : Option SecretKeySelector

pub record HdfsArtifactModel : Type 0 where
  pub path : Text
  pub addresses : List Text
  pub hdfs_user : Text
  pub force : Option Bool

pub record ArchiveStrategy : Type 0 where
  pub archive_none : Bool
  pub tar : Option (Option ℤ)
  pub zip : Bool

pub record ArtifactModel : Type 0 where
  pub name : Text
  pub path : Text
  pub from : Text
  pub from_expression : Text
  pub global_name : Text
  pub sub_path : Text
  pub mode : Option ℤ
  pub optional : Option Bool
  pub archive : Option ArchiveStrategy
  pub s3 : Option S3ArtifactModel
  pub gcs : Option GcsArtifactModel
  pub http : Option HttpArtifactModel
  pub git : Option GitArtifactModel
  pub raw : Option RawArtifactModel
  pub azure : Option AzureArtifactModel
  pub oss : Option OssArtifactModel
  pub hdfs : Option HdfsArtifactModel
  pub plugin : Option PluginModel
  pub artifactory : Option ArtifactoryModel
  pub artifact_gc : Option ArtifactGcSpec
  pub deleted : Option Bool
  pub recurse_mode : Option Bool

pub record ArgumentsModel : Type 0 where
  pub parameters : List ParameterModel
  pub artifacts : List ArtifactModel

pub record InputsModel : Type 0 where
  pub parameters : List ParameterModel
  pub artifacts : List ArtifactModel

pub record OutputsModel : Type 0 where
  pub parameters : List ParameterModel
  pub artifacts : List ArtifactModel
  pub exit_code : Text

pub record ArtifactLocation : Type 0 where
  pub s3 : Option S3ArtifactModel
  pub archive_logs : Option Bool

pub record ManifestFrom : Type 0 where
  pub artifact : Option ArtifactModel

pub record DataSource : Type 0 where
  pub artifact_paths : Option ArtifactModel

pub record TransformationStep : Type 0 where
  pub expression : Text

pub record DataModel : Type 0 where
  pub source : DataSource
  pub transformation : List TransformationStep
